-- ===== src/History/Tests.antt =====
-- The theorems of the stored samples at one server with three samples, and a codec that writes
-- numbers in unary.
use superflash_ia.Prelude.{
  select, not, ltb, ℕ, pos, zero, suc, ◌+◌, ◌*◌, String, true, false, ◌≡◌, refl, ap, none, some,
  List, [], ◌∷◌, arith, count, length,
}
use superflash_ia.Text.{partition}
use superflash_ia.Collection.Runs.{CollectionRun, new_run, manual}
use superflash_ia.History.Samples.{Sample, insert, newest_first}
use superflash_ia.History.Cursor.{Codec}
use superflash_ia.History.Cursors.{IsCodec}
use superflash_ia.History.Pages.{list_page}
use superflash_ia.History.Sorted.{IsKeyed}
use superflash_ia.History.Follow.{history, follow, follow_all}
use superflash_ia.History.Retention.{
  RetentionResult, Stored, pruned, microseconds_per_day, is_old, is_old_run, prune_history,
  prune_main, exit_code,
}
use superflash_ia.History.Pruned.{as_simulation, prune_history-simulation, prune_history_lem}

unfoldable unary : ℕ → String
unary zero = String.[]
unary (suc n) = String.◌∷◌ "1" (unary n)

unfoldable length_of : String → ℕ
length_of String.[] = 0
length_of (String.◌∷◌ c s) = suc (length_of s)

length_of-unary : (n : ℕ) → length_of (unary n) ≡ n
unfolding length_of unary
length_of-unary zero = refl
length_of-unary (suc n) = ap suc (length_of-unary n)

no_bar : (n : ℕ) → (partition b'|' (unary n)).1 ≡ false
unfolding partition unary
no_bar zero = refl
no_bar (suc n) = no_bar n

abbrev unary_codec : Codec
unary_codec = record {
  encode64 = λ s. s;
  decode64 = λ s. some s;
  isoformat = unary;
  fromisoformat = λ s. some (length_of s);
  str = unary;
  int = λ s. some (pos (length_of s));
}

unary_codec-IsCodec : IsCodec unary_codec
unary_codec-IsCodec = record {
  decode64-encode64 = λ s. refl;
  fromisoformat-isoformat = λ n. ap some (length_of-unary n);
  int-str = λ n. ap (λ m. some (pos m)) (length_of-unary n);
  no_separator = no_bar;
}

abbrev sample : ℕ → ℕ → Sample ℕ
sample key at = record { sample_id = key; owner_id = 7; collected_at = at; measures = 0 }

abbrev three : List (Sample ℕ)
three = sample 1 5 ∷ sample 2 9 ∷ sample 3 5 ∷ []

three-IsKeyed : IsKeyed three
unfolding IsKeyed
three-IsKeyed = ((refl, (refl, tt)), ((refl, tt), (tt, tt)))

newest : history three 7 none none ≡ sample 2 9 ∷ sample 3 5 ∷ sample 1 5 ∷ []
unfolding newest_first insert
newest = refl

follow_all_example :
    follow
      (list_page unary_codec "Servidor no encontrado" (7 ∷ []) three 7 none none 1)
      (suc (length (history three 7 none none)))
      none
    ≡ some (history three 7 none none)
follow_all_example =
    follow_all unary_codec unary_codec-IsCodec 0 "Servidor no encontrado" (7 ∷ []) three 7 none none
      refl three-IsKeyed

abbrev day : ℕ
day = microseconds_per_day

abbrev stored : Stored ℕ ℕ
stored = record {
  server_samples = sample 1 5 ∷ sample 2 (3 * day) ∷ [];
  channel_samples = sample 1 (3 * day) ∷ [];
  runs = new_run "mock" 4 manual 1 ∷ [];
}

prune_history-simulation_example :
    prune_history (3 * day) (pos 1) true stored
    ≡ as_simulation stored (prune_history (3 * day) (pos 1) false stored)
prune_history-simulation_example = prune_history-simulation (3 * day) (pos 1) stored

prune_history_example :
    (r : RetentionResult) × (st' : Stored ℕ ℕ) × (prune_history (3 * day) (pos 1) false stored
      ≡ pruned r st')
    × (r.cutoff + 1 * day ≡ 3 * day)
    × (history st'.server_samples 7 (some (2 * day)) none
        ≡ history stored.server_samples 7 (some (2 * day)) none)
    × (history st'.channel_samples 7 (some (2 * day)) none
        ≡ history stored.channel_samples 7 (some (2 * day)) none)
    × (count (is_old r.cutoff) st'.server_samples ≡ 0)
    × (count (is_old r.cutoff) st'.channel_samples ≡ 0)
    × (count (is_old_run r.cutoff) st'.runs ≡ 0)
    × (st'.runs ≡ select (λ (x : CollectionRun). not (ltb x.started_at r.cutoff)) stored.runs)
    × (r.server_metrics_deleted + length st'.server_samples ≡ 2)
    × (r.channel_metrics_deleted + length st'.channel_samples ≡ 1)
    × (r.collection_runs_deleted + length st'.runs ≡ 1)
prune_history_example =
    prune_history_lem (3 * day) 1 (2 * day) none 7 stored (omega arith) (omega arith) (omega arith)

disabled : prune_main (3 * day) none false stored ≡ exit_code 2 stored
unfolding prune_main
disabled = refl
