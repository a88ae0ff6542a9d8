-- ===== src/Batcher/Writes/Interleaving.antt =====
-- Flushes that run at the same time: their writes, interleaved in any way, leave what the flushes
-- leave one after the other, up to the order of the log and of the observations.
use native.Mathlib.Nat.{ℕ_set}
use mathlib.Core.List.{perm_middle, flatten}
use mathlib.Core.List.Perm
use distri_inference_sidecar.Prelude.{
  ℕ, ◌≡◌, refl, ap, sym, subst, ◌∙◌, List, [], ◌∷◌, ◌++◌, map, Perm, arith,
}
use distri_inference_sidecar.Batcher.Types.{Config, Request, Out}
use distri_inference_sidecar.Batcher.Flush.{Env, flush_batch}
use distri_inference_sidecar.Batcher.Writes.{Write, apply_all, apply_all-append, flush_writes}
use distri_inference_sidecar.Batcher.Writes.Effects.{
  delivered, latency_of, size_of, add_success, add_error, others, apply_all-Effects,
}
use distri_inference_sidecar.Batcher.Writes.Applied.{flush_batch-writes}

-- The lists are taken off in their own order, in turns of any kind.
pub data Interleaving : List (List Write) → List Write → Type 0 where
  finished : (wss : List (List Write)) → flatten wss ≡ [] → Interleaving wss []
  writes :
      (wss before after : List (List Write)) (w : Write) (ws us : List Write)
      → wss ≡ before ++ (w ∷ ws) ∷ after
      → Interleaving (before ++ ws ∷ after) us
      → Interleaving wss (w ∷ us)

flatten-take :
    (before after : List (List Write)) (w : Write) (ws : List Write)
    → Perm (flatten (before ++ (w ∷ ws) ∷ after)) (w ∷ flatten (before ++ ws ∷ after))
unfolding flatten
flatten-take [] after w ws = Perm.rfl
flatten-take (b ∷ before) after w ws =
    Perm.trans (Perm.append_left b (flatten-take before after w ws)) (perm_middle b _)

Interleaving-perm :
    {wss : List (List Write)} {us : List Write} → Interleaving wss us → Perm (flatten wss) us
Interleaving-perm (finished wss e) = rw e Perm.rfl
Interleaving-perm (writes wss before after w ws us e i) =
    rw e (Perm.trans (flatten-take before after w ws) (Perm.cons w (Interleaving-perm i)))

add_success_comm :
    (v w : Write) (n : ℕ) → add_success v (add_success w n) ≡ add_success w (add_success v n)
add_success_comm v w n = ground arith

add_error_comm : (v w : Write) (n : ℕ) → add_error v (add_error w n) ≡ add_error w (add_error v n)
add_error_comm v w n = ground arith

-- The same results sent, in some order; the same counts; the same observations, in some order; and
-- nothing else touched by one and not by the other.
pub record Agrees (a b : Out) : Type 0 where
  pub sent : Perm a.sent b.sent
  pub successes : a.metrics.infer_success ≡ b.metrics.infer_success
  pub errors : a.metrics.infer_errors ≡ b.metrics.infer_errors
  pub latencies : Perm a.metrics.infer_latency b.metrics.infer_latency
  pub sizes : Perm a.metrics.batch_size b.metrics.batch_size
  pub kept : others a.metrics ≡ others b.metrics

-- The order of writes does not matter.
apply_all-Agrees :
    (ws vs : List Write) (out : Out) → Perm ws vs → Agrees (apply_all ws out) (apply_all vs out)
apply_all-Agrees ws vs out p =
    let a = apply_all-Effects ws out in
    let b = apply_all-Effects vs out in
    record {
      sent = rw (a.sent, b.sent) (Perm.append_left out.sent (Perm.filter_map delivered p));
      successes =
          a.successes
          ∙ Perm.foldr-eq ℕ_set add_success add_success_comm p out.metrics.infer_success
          ∙ sym b.successes;
      errors =
          a.errors
          ∙ Perm.foldr-eq ℕ_set add_error add_error_comm p out.metrics.infer_errors
          ∙ sym b.errors;
      latencies =
          rw (a.latencies, b.latencies)
            (Perm.append_left out.metrics.infer_latency (Perm.filter_map latency_of p));
      sizes =
          rw (a.sizes, b.sizes)
            (Perm.append_left out.metrics.batch_size (Perm.filter_map size_of p));
      kept = a.kept ∙ sym b.kept;
    }

-- The flushes one after the other.
unfoldable pub flush_all : Config → List (Env × List Request) → Out → Out
flush_all cfg [] out = out
flush_all cfg ((env, batch) ∷ fs) out = flush_all cfg fs (flush_batch env cfg batch out)

abbrev pub all_writes : Config → List (Env × List Request) → List (List Write)
all_writes cfg = map (λ f. flush_writes f.0 cfg f.1)

flush_all-writes :
    (cfg : Config) (fs : List (Env × List Request)) (out : Out)
    → flush_all cfg fs out ≡ apply_all (flatten (all_writes cfg fs)) out
unfolding flush_all flatten
flush_all-writes cfg [] out = refl
flush_all-writes cfg ((env, batch) ∷ fs) out =
    flush_all-writes cfg fs (flush_batch env cfg batch out)
    ∙ ap (apply_all (flatten (all_writes cfg fs))) (flush_batch-writes env cfg batch out)
    ∙ sym (apply_all-append (flush_writes env cfg batch) (flatten (all_writes cfg fs)) out)

-- Flushes whose writes are interleaved in any way, each in its own order, leave the log, the
-- counters and the histograms that they leave one after the other, up to the order of the log and
-- of the observations.
pub Interleaving-Agrees :
    (cfg : Config) (fs : List (Env × List Request)) (us : List Write) (out : Out)
    → Interleaving (all_writes cfg fs) us
    → Agrees (apply_all us out) (flush_all cfg fs out)
Interleaving-Agrees cfg fs us out i =
    subst (Agrees (apply_all us out)) (sym (flush_all-writes cfg fs out))
      (apply_all-Agrees us (flatten (all_writes cfg fs)) out (Perm.symm (Interleaving-perm i)))
