-- ===== src/History/Follow.antt =====
-- A client that follows the cursors of the pages reads the whole history.
use superflash_ia.Prelude.{
  ℕ, zero, suc, ◌<◌, ◌≤◌, String, true, false, ◌≡◌, refl, ap, subst, sym, ◌∙◌, inl, inr, Bool-cases,
  Option, none, some, List, ◌++◌, arith, ltb, nat_eq, select, length, contains,
}
use superflash_ia.History.Samples.{
  Sample, MetricCursor, is_beyond, is_in_range, position, newest_first, take, last,
}
use superflash_ia.History.Cursor.{Codec, encode_cursor}
use superflash_ia.History.Cursors.{IsCodec, decode_cursor-encode_cursor}
use superflash_ia.History.Pages.{
  Response, page, http_error, answer_page, read_cursor, next_cursor, list_page,
}
use superflash_ia.History.Parts.{
  take_all, take-take, length-take, take-append-drop, length-drop, select-IsDescending,
  select-IsKeyed, select-passes, select-select, select-true, is_beyond-precedes,
}
use superflash_ia.History.Sorted.{
  precedes, drop, IsDescending, IsKeyed, newest_first-IsDescending, select-newest_first,
  select-precedes, All-take,
}

module _ {Measures : Type 0} where
  -- All the samples of an owner in a range, the newest first.
  abbrev pub history : List (Sample Measures) → ℕ → Option ℕ → Option ℕ → List (Sample Measures)
  history table owner start end = newest_first (select (is_in_range owner start end) table)

  -- What a client has read that asks for pages until one has no cursor: `none` if a page is an error
  -- or if `fuel` pages are not enough.
  pub follow :
      (Option String → Response Measures) → ℕ → Option String → Option (List (Sample Measures))
  follow ask zero cursor = none
  follow ask (suc fuel) cursor = elim (ask cursor) [
    | http_error code detail ↦ none
    | page body none ↦ some body
    | page body (some next) ↦ elim (follow ask fuel (some next)) [
      | none ↦ none
      | some rest ↦ some (body ++ rest)
    ]
  ]

  module _ (ask : Option String → Response Measures) (fuel : ℕ) (cursor : Option String) where
    follow_more :
        (limit : ℕ) (ss rs : List (Sample Measures)) (next : String)
        → ask cursor ≡ page (take limit ss) (some next)
        → follow ask fuel (some next) ≡ some rs
        → rs ≡ drop limit ss
        → follow ask (suc fuel) cursor ≡ some ss
    unfolding follow
    follow_more limit ss rs next a f r = rw (follow, a, f, r, take-append-drop limit ss) refl

    follow_last :
        (ss : List (Sample Measures))
        → ask cursor ≡ page ss none
        → follow ask (suc fuel) cursor ≡ some ss
    unfolding follow
    follow_last ss a = rw (follow, a) refl

  module _ (codec : Codec) (c : IsCodec codec) (limit : ℕ) where
    next_cursor-last :
        (ss : List (Sample Measures)) (s : Sample Measures)
        → last ss ≡ some s
        → next_cursor codec ss ≡ some (encode_cursor codec s.collected_at s.sample_id)
    next_cursor-last ss s e = rw (next_cursor, e) refl

    -- A page that is not the last one, and the cursor behind it.
    answer_more :
        (ss : List (Sample Measures))
        → IsDescending ss
        → suc limit < length ss
        → (s : Sample Measures) × (answer_page codec (suc limit) (take (suc (suc limit)) ss)
            ≡ page (take (suc limit) ss) (some (encode_cursor codec s.collected_at s.sample_id)))
          × (last (take (suc limit) ss) ≡ some s)
          × (select (precedes s) ss ≡ drop (suc limit) ss)
    answer_more ss d l =
        let h = select-precedes limit ss d l in
        let b : ltb (suc limit) (length (take (suc (suc limit)) ss)) ≡ true =
          ground (arith, length-take (suc limit) ss l) in
        let e = next_cursor-last (take (suc limit) ss) h.0 h.1 in
        (h.0, rw (b, take-take (suc limit) ss) (ap (page (take (suc limit) ss)) e), h.1, h.2)

    answer_last :
        (ss : List (Sample Measures))
        → length ss ≤ suc limit
        → answer_page codec (suc limit) (take (suc (suc limit)) ss) ≡ page ss none
    answer_last ss l =
        let b : ltb (suc limit) (length ss) ≡ false = ground (arith, l) in
        rw (take_all (suc (suc limit)) ss (omega (arith, l)), b) refl

    module _ (detail : String) (known : List ℕ) (table : List (Sample Measures)) (owner : ℕ)
        (start end : Option ℕ) where
      abbrev rest : Option MetricCursor → List (Sample Measures)
      rest before = select (is_beyond before) (history table owner start end)

      list_page_lem :
          (cursor : Option String) (before : Option MetricCursor)
          → contains known owner ≡ true
          → IsKeyed table
          → read_cursor codec cursor ≡ some before
          → list_page codec detail known table owner start end (suc limit) cursor
            ≡ answer_page codec (suc limit) (take (suc (suc limit)) (rest before))
      list_page_lem cursor before k i e =
          rw
            (
              k,
              e,
              select-newest_first (is_beyond before) (select (is_in_range owner start end) table)
                  (select-IsKeyed (is_in_range owner start end) table i),
            )
            refl

      rest-drop :
          (before : Option MetricCursor) (s : Sample Measures)
          → last (take (suc limit) (rest before)) ≡ some s
          → select (precedes s) (rest before) ≡ rest (some (position s))
      rest-drop before s e =
          select-select (is_beyond before) (precedes s)
            (λ t. is_beyond-precedes before s t (
              All-take (λ t. is_beyond before t ≡ true) (suc limit) (rest before) s
                (select-passes (is_beyond before) (history table owner start end)) e))
            (history table owner start end)

      read_cursor-encode_cursor :
          (s : Sample Measures)
          → read_cursor codec (some (encode_cursor codec s.collected_at s.sample_id))
            ≡ some (some (position s))
      read_cursor-encode_cursor s =
          rw (read_cursor, decode_cursor-encode_cursor codec c s.collected_at s.sample_id) refl

      rest-IsDescending :
          (before : Option MetricCursor) → IsKeyed table → IsDescending (rest before)
      rest-IsDescending before i =
          select-IsDescending (is_beyond before) (history table owner start end) (
            newest_first-IsDescending (select (is_in_range owner start end) table)
              (select-IsKeyed (is_in_range owner start end) table i))

      abbrev ask : Option String → Response Measures
      ask = list_page codec detail known table owner start end (suc limit)

      follow-rest :
          (fuel : ℕ) (cursor : Option String) (before : Option MetricCursor)
          → contains known owner ≡ true
          → IsKeyed table
          → read_cursor codec cursor ≡ some before
          → length (rest before) < fuel
          → follow ask fuel cursor ≡ some (rest before)
      follow-rest zero cursor before k i e l = absurd (omega (arith, l))
      follow-rest (suc fuel) cursor before k i e l =
          let p = list_page_lem cursor before k i e in
          elim (Bool-cases (ltb (suc limit) (length (rest before)))) [
            | inl more ↦
                let l' : suc limit < length (rest before) = ground arith in
                let h = answer_more (rest before) (rest-IsDescending before i) l' in
                let back = sym (rest-drop before h.0 h.2) ∙ h.3 in
                let shorter = length-drop limit (rest before) l' in
                let ih =
                  follow-rest fuel (some (encode_cursor codec h.0.collected_at h.0.sample_id))
                    (some (position h.0)) k i (read_cursor-encode_cursor h.0)
                    (subst (λ rs. length rs < fuel) (sym back) (omega (arith, shorter, l))) in
                follow_more ask fuel cursor (suc limit) (rest before) (rest (some (position h.0)))
                  (encode_cursor codec h.0.collected_at h.0.sample_id) (p ∙ h.1) ih back
            | inr no_more ↦
                let l' : length (rest before) ≤ suc limit = ground arith in
                follow_last ask fuel cursor (rest before) (p ∙ answer_last (rest before) l')
          ]

      -- For a codec that reads what it writes, a limit of at least one (here `suc limit`), an owner
      -- that is stored and samples with different ids: a client that asks for the first page and
      -- then for the page of every cursor it is given gets, in no more pages than there are samples
      -- and one, all the samples of the owner in the range, each once and the newest first.
      pub follow_all :
          contains known owner ≡ true
          → IsKeyed table
          → follow
              (list_page codec detail known table owner start end (suc limit))
              (suc (length (history table owner start end)))
              none
            ≡ some (history table owner start end)
      follow_all k i =
          let all : rest none ≡ history table owner start end =
            select-true (history table owner start end) in
          subst (λ h. follow ask (suc (length h)) none ≡ some h) all
            (follow-rest (suc (length (rest none))) none none k i refl (omega arith))
