-- ===== src/History/Pages.antt =====
-- The endpoints of the samples: `list_server_metrics` of app/api/v1/servers.py and
-- `list_channel_metrics` of app/api/v1/channels.py. `known` has the ids of the stored owners.
use superflash_ia.Prelude.{
  ℕ, suc, String, Option, none, some, List, if◌then◌else◌, ltb, length, contains, nat_eq,
}
use superflash_ia.History.Samples.{Sample, MetricCursor, take, last, list_metrics}
use superflash_ia.History.Cursor.{Codec, encode_cursor, decode_cursor}

module _ (Measures : Type 0) where
  -- The body and the header `X-Next-Cursor`, or an `HTTPException`.
  pub data Response : Type 0 where
    page : List (Sample Measures) → Option String → Response
    http_error : ℕ → String → Response

-- The cursor that the client gives, decoded.
abbrev pub read_cursor : Codec → Option String → Option (Option MetricCursor)
read_cursor codec none = some none
read_cursor codec (some value) = elim (decode_cursor codec value) [
  | none ↦ none
  | some before ↦ some (some before)
]

module _ {Measures : Type 0} (codec : Codec) where
  abbrev pub next_cursor : List (Sample Measures) → Option String
  next_cursor metrics = elim (last metrics) [
    | none ↦ none
    | some s ↦ some (encode_cursor codec s.collected_at s.sample_id)
  ]

  abbrev pub answer_page : ℕ → List (Sample Measures) → Response Measures
  answer_page limit metrics =
      if ltb limit (length metrics)
      then page (take limit metrics) (next_cursor (take limit metrics))
      else page metrics none

  module _ (detail : String) (known : List ℕ) (table : List (Sample Measures)) where
    abbrev pub list_page : ℕ → Option ℕ → Option ℕ → ℕ → Option String → Response Measures
    list_page owner start end limit cursor =
        if contains known owner
        then elim (read_cursor codec cursor) [
          | none ↦ http_error 400 "Cursor de paginación inválido"
          | some before ↦ answer_page limit (list_metrics owner start end (suc limit) before table)
        ]
        else http_error 404 detail

  abbrev pub list_server_metrics :
      List ℕ
      → List (Sample Measures)
      → ℕ
      → Option ℕ
      → Option ℕ
      → ℕ
      → Option String
      → Response Measures
  list_server_metrics = list_page "Servidor no encontrado"

  abbrev pub list_channel_metrics :
      List ℕ
      → List (Sample Measures)
      → ℕ
      → Option ℕ
      → Option ℕ
      → ℕ
      → Option String
      → Response Measures
  list_channel_metrics = list_page "Canal no encontrado"
