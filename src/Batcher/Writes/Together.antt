-- ===== src/Batcher/Writes/Together.antt =====
-- Flushes that run at the same time: what they do together, in terms of what each owes its batch.
use native.Mathlib.Nat.{ℕ_set}
use mathlib.Core.List.{append-nil, append_assoc, foldr}
use mathlib.Core.List.Perm
use distri_inference_sidecar.Prelude.{
  ℕ, ◌+◌, ◌≡◌, refl, sym, ap, ◌∙◌, List, [], ◌∷◌, ◌++◌, length, Perm, arith,
}
use distri_inference_sidecar.Batcher.Types.{Config, Request, Delivery, Out}
use distri_inference_sidecar.Batcher.ReqMap.{ReqMap}
use distri_inference_sidecar.Batcher.Flush.{Env, flush_batch}
use distri_inference_sidecar.Batcher.Answers.{live, owed}
use distri_inference_sidecar.Batcher.Delivery.{flush_batch-owed}
use distri_inference_sidecar.Batcher.Counters.{
  successes, failures, IsCounted, flush_batch-IsCounted, is_ok, is_failed,
}
use distri_inference_sidecar.Batcher.Writes.{Write, apply_all}
use distri_inference_sidecar.Batcher.Writes.Observed.{posts, latencies_if, flush_batch-histograms}
use distri_inference_sidecar.Batcher.Writes.Interleaving.{
  Interleaving, flush_all, all_writes, Interleaving-Agrees,
}

-- What the flushes of these batches owe, all together.
abbrev pub owed_by : Config → List (Env × List Request) → List Delivery
owed_by cfg [] = []
owed_by cfg ((env, batch) ∷ fs) = owed env cfg batch ++ owed_by cfg fs

-- A range over a map visits each of its entries once, in each of the environments.
abbrev pub AllRanged : List (Env × List Request) → Type 0
AllRanged [] = Unit
AllRanged ((env, batch) ∷ fs) = ((m : ReqMap) → Perm (env.ranged m) m) × AllRanged fs

-- The latencies, and the sizes, of the flushes that call the backend.
abbrev pub latencies_of : Config → List (Env × List Request) → List ℕ
latencies_of cfg [] = []
latencies_of cfg ((env, batch) ∷ fs) =
    latencies_if (posts env cfg (live env batch)) env.latency_ms ++ latencies_of cfg fs

abbrev pub sizes_of : Config → List (Env × List Request) → List ℕ
sizes_of cfg [] = []
sizes_of cfg ((env, batch) ∷ fs) =
    latencies_if (posts env cfg (live env batch)) (length (live env batch)) ++ sizes_of cfg fs

-- What some flushes have done to the log, the counters and the histograms.
pub record Flushed (cfg : Config) (fs : List (Env × List Request)) (a b : Out) : Type 0 where
  pub sent : Perm b.sent (a.sent ++ owed_by cfg fs)
  pub counted : IsCounted b
  pub latencies : Perm b.metrics.infer_latency (a.metrics.infer_latency ++ latencies_of cfg fs)
  pub sizes : Perm b.metrics.batch_size (a.metrics.batch_size ++ sizes_of cfg fs)

abbrev add_ok : Delivery → ℕ → ℕ
add_ok d n = is_ok d.1.err + n

abbrev add_failed : Delivery → ℕ → ℕ
add_failed d n = is_failed d.1.err + n

successes-foldr : (ds : List Delivery) → successes ds ≡ foldr add_ok 0 ds
successes-foldr [] = refl
successes-foldr ((ch, r) ∷ ds) = ap (λ n. is_ok r.err + n) (successes-foldr ds)

failures-foldr : (ds : List Delivery) → failures ds ≡ foldr add_failed 0 ds
failures-foldr [] = refl
failures-foldr ((ch, r) ∷ ds) = ap (λ n. is_failed r.err + n) (failures-foldr ds)

successes-perm : {ds es : List Delivery} → Perm ds es → successes ds ≡ successes es
successes-perm {ds} {es} p =
    successes-foldr ds
    ∙ Perm.foldr-eq ℕ_set add_ok (λ d e n. omega arith) p 0
    ∙ sym (successes-foldr es)

failures-perm : {ds es : List Delivery} → Perm ds es → failures ds ≡ failures es
failures-perm {ds} {es} p =
    failures-foldr ds
    ∙ Perm.foldr-eq ℕ_set add_failed (λ d e n. omega arith) p 0
    ∙ sym (failures-foldr es)

-- One after the other.
flush_all-Flushed :
    (cfg : Config) (fs : List (Env × List Request)) (out : Out)
    → AllRanged fs
    → IsCounted out
    → Flushed cfg fs out (flush_all cfg fs out)
unfolding flush_all
flush_all-Flushed cfg [] out ranged h = record {
  sent = rw append-nil Perm.rfl;
  counted = h;
  latencies = rw append-nil Perm.rfl;
  sizes = rw append-nil Perm.rfl;
}
flush_all-Flushed cfg ((env, batch) ∷ fs) out (ranged, more) h =
    let once = flush_batch env cfg batch out in
    let rest = flush_all-Flushed cfg fs once more (flush_batch-IsCounted env cfg batch out h) in
    let seen = flush_batch-histograms env cfg batch out in
    record {
      sent = Perm.trans rest.sent (
          Perm.trans
            (Perm.append_right (owed_by cfg fs) (flush_batch-owed env cfg ranged batch out))
            (rw append_assoc Perm.rfl));
      counted = rest.counted;
      latencies = Perm.trans rest.latencies (rw (ap (λ x. x.0) seen, append_assoc) Perm.rfl);
      sizes = Perm.trans rest.sizes (rw (ap (λ x. x.1) seen, append_assoc) Perm.rfl);
    }

-- Flushes whose writes are interleaved in any way, each in its own order, send together, up to
-- order, what each of them owes its batch and nothing else; the success and error counters stay
-- the numbers of results sent without and with an error; and the two histograms get, up to order,
-- the latency and the number of live requests of each flush that calls the backend, and nothing
-- for the others. A range over a map is taken to visit each of its entries once, and the counters
-- to be those numbers before.
pub Interleaving-Flushed :
    (cfg : Config) (fs : List (Env × List Request)) (us : List Write) (out : Out)
    → AllRanged fs
    → IsCounted out
    → Interleaving (all_writes cfg fs) us
    → Flushed cfg fs out (apply_all us out)
Interleaving-Flushed cfg fs us out ranged h i =
    let same = Interleaving-Agrees cfg fs us out i in
    let done = flush_all-Flushed cfg fs out ranged h in
    record {
      sent = Perm.trans same.sent done.sent;
      counted = record {
        success = same.successes ∙ done.counted.success ∙ sym (successes-perm same.sent);
        errors = same.errors ∙ done.counted.errors ∙ sym (failures-perm same.sent);
      };
      latencies = Perm.trans same.latencies done.latencies;
      sizes = Perm.trans same.sizes done.sizes;
    }
