-- ===== src/History/Samples.antt =====
-- `list_metrics` of app/repositories/server_repository.py and channel_repository.py: the samples of
-- one owner, the newest first. An instant is a number of microseconds; `owner_id` is the server or
-- the channel, and the measured columns are of a type that the model takes as a parameter.
use superflash_ia.Prelude.{
  ℤ, pos, negsuc, ℕ, zero, suc, Bool, true, false, ◌&&◌, ◌||◌, Option, none, some, List, [], ◌∷◌,
  if◌then◌else◌, ltb, leb, ◌==◌, nat_eq, select,
}

module _ (Measures : Type 0) where
  -- `ServerMetric` or `ChannelMetric`
  pub record Sample : Type 0 where
    pub sample_id : ℕ
    pub owner_id : ℕ
    pub collected_at : ℕ
    pub measures : Measures

-- `MetricCursor`
abbrev pub MetricCursor : Type 0
MetricCursor = ℕ × ℤ

-- A key compared with the number of a cursor, which a client may have made negative.
abbrev pub key_below : ℕ → ℤ → Bool
key_below key (pos n) = ltb key n
key_below key (negsuc n) = false

module _ {Measures : Type 0} where
  -- The `where` of the cursor.
  abbrev pub is_before : MetricCursor → Sample Measures → Bool
  is_before (before_at, before_id) s =
      ltb s.collected_at before_at
      || (s.collected_at == before_at && key_below s.sample_id before_id)

  -- The position of a sample in the order.
  abbrev pub position : Sample Measures → MetricCursor
  position s = (s.collected_at, pos s.sample_id)

  abbrev pub is_from : Option ℕ → Sample Measures → Bool
  is_from none s = true
  is_from (some start) s = leb start s.collected_at

  abbrev pub is_until : Option ℕ → Sample Measures → Bool
  is_until none s = true
  is_until (some end) s = leb s.collected_at end

  abbrev pub is_in_range : ℕ → Option ℕ → Option ℕ → Sample Measures → Bool
  is_in_range owner start end s = s.owner_id == owner && is_from start s && is_until end s

  abbrev pub is_beyond : Option MetricCursor → Sample Measures → Bool
  is_beyond none s = true
  is_beyond (some before) s = is_before before s

  -- `order_by(collected_at.desc(), id.desc())`
  unfoldable pub insert : Sample Measures → List (Sample Measures) → List (Sample Measures)
  insert s [] = s ∷ []
  insert s (t ∷ ts) =
      let rest = insert s ts in if is_before (position s) t then s ∷ t ∷ ts else t ∷ rest

  unfoldable pub newest_first : List (Sample Measures) → List (Sample Measures)
  newest_first [] = []
  newest_first (s ∷ ss) = insert s (newest_first ss)

  -- `limit(n)` of a query, and the slice `[:n]` of a list.
  abbrev pub take : ℕ → List (Sample Measures) → List (Sample Measures)
  take zero ss = []
  take (suc n) [] = []
  take (suc n) (s ∷ ss) = s ∷ take n ss

  -- `metrics[-1]`
  abbrev pub last : List (Sample Measures) → Option (Sample Measures)
  last [] = none
  last (s ∷ []) = some s
  last (s ∷ t ∷ ss) = last (t ∷ ss)

  abbrev pub list_metrics :
      ℕ
      → Option ℕ
      → Option ℕ
      → ℕ
      → Option MetricCursor
      → List (Sample Measures)
      → List (Sample Measures)
  list_metrics owner start end limit before table =
      take limit
        (newest_first (select (is_beyond before) (select (is_in_range owner start end) table)))
