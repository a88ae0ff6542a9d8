-- ===== src/Sidecar/Process/Served.antt =====
-- End to end: a response with output carries what the backend answered for the response's ID.
use mathlib.Core.List.{
  Mem, Mem-prop, mem-cons, mem-map_of_mem, mem-append_left, mem-append_right, mem-cons_of_mem,
  not-mem-nil, Subset, Nodup, Nodup-cons, flatten,
}
use mathlib.Core.List.Perm
use mathlib.Core.Logic.Or
use mathlib.Core.Logic.{∥∥₁_prop, ∥∥₁_map, ∥∥₁_elim}
use distri_inference_sidecar.Prelude.{
  ℕ, ◌≡◌, ◌≢◌, sym, subst, ap, ◌∙◌, List, [], ◌∷◌, ◌++◌, map, inl, inr, Option-cases,
}
use distri_inference_sidecar.Errors.{ok}
use distri_inference_sidecar.Metrics.{Metrics}
use distri_inference_sidecar.VramGuard.Readers.{Nvml}
use distri_inference_sidecar.Batcher.Types.{Config, Request, SingleResult}
use distri_inference_sidecar.Batcher.Flush.{Env, cancelled}
use distri_inference_sidecar.Batcher.Answers.{live, backend_answer}
use distri_inference_sidecar.Batcher.System
use distri_inference_sidecar.Batcher.System.History.{
  flushed, drained, batches_of, Reach-IsExplained,
}
use distri_inference_sidecar.Batcher.System.Outputs.{IsFromBackend, Reach-IsFromBackend}
use distri_inference_sidecar.GrpcServer.{InferResponse, response}
use distri_inference_sidecar.Sidecar.{RuntimeConfig, batcher_config}
use distri_inference_sidecar.Sidecar.Process.{Process, World, Reach, launch}
use distri_inference_sidecar.Sidecar.Process.Batching.{Reach-Flushing, all_flushed}
use distri_inference_sidecar.Sidecar.Process.Fresh.{Reach-Nodup}
use distri_inference_sidecar.Sidecar.Process.Replies.{IsBacked, Reach-IsBacked}

-- An item of the backend's answer to a flush that has the response's ID, no error, and the
-- response's output.
pub record IsServed (cfg : Config) (fs : List (Env × List Request)) (resp : InferResponse)
    : Type 0 where
  pub env : Env
  pub batch : List Request
  pub was_flushed : Mem (env, batch) fs
  pub results : List SingleResult
  pub answered : backend_answer env cfg (live env batch) ≡ ok results
  pub item : SingleResult
  pub among : Mem item results
  pub same_id : item.id ≡ resp.request_id
  pub no_error : item.error ≡ []
  pub output : resp.output_data ≡ item.output_data

-- Among requests with different channels, the channel tells which one it is.
same_request :
    (rs : List Request) (a b : Request)
    → Nodup (map (λ r. r.result_ch) rs)
    → Mem a rs
    → Mem b rs
    → a.result_ch ≡ b.result_ch
    → ∥ a ≡ b ∥₁
same_request [] a b d m k e = absurd (not-mem-nil m)
same_request (c ∷ cs) a b d m k e =
    Or.elim ∥∥₁_prop (mem-cons.0 m)
      (λ p.
        Or.elim ∥∥₁_prop (mem-cons.0 k) (λ q. ∣ p ∙ sym q ∣₁)
          (λ j. absurd (away b j (sym e ∙ ap (λ r. r.result_ch) p))))
      (λ i.
        Or.elim ∥∥₁_prop (mem-cons.0 k) (λ q. absurd (away a i (e ∙ ap (λ r. r.result_ch) q)))
          (λ j. same_request cs a b (Nodup-cons.0 d).1 i j e))
  where
    away : (x : Request) → Mem x cs → x.result_ch ≢ c.result_ch
    away x j p =
        (Nodup-cons.0 d).0
          (subst (λ n. Mem n (map (λ r. r.result_ch) cs)) p (mem-map_of_mem (λ r. r.result_ch) j))

live-subset : (env : Env) (rs : List Request) → Subset (live env rs) rs
unfolding live
live-subset env [] x m = m
live-subset env (r ∷ rs) x m = elim (Option-cases (cancelled env r)) [
  | inl e ↦
      Or.elim (Mem-prop {a = x} {l = r ∷ rs}) (mem-cons.0 (rw (e, live) at m))
        (λ p. mem-cons.1 (∣ inl p ∣₁)) (λ k. mem-cons_of_mem r (live-subset env rs x k))
  | inr (y, e) ↦ mem-cons_of_mem r (live-subset env rs x (rw (e, live) at m))
]

batch-subset :
    (fs : List (Env × List Request)) (env : Env) (batch : List Request)
    → Mem (env, batch) fs
    → Subset batch (batches_of fs)
unfolding flatten
batch-subset [] env batch m x i = absurd (not-mem-nil m)
batch-subset (f ∷ fs) env batch m x i =
    Or.elim (Mem-prop {a = x} {l = batches_of (f ∷ fs)}) (mem-cons.0 m)
      (λ p. mem-append_left (batches_of fs) (subst (Mem x) (ap (λ g. g.1) p) i))
      (λ k. mem-append_right f.1 (batch-subset fs env batch k x i))

module _ (w : World) (api : Nvml) (cfg : RuntimeConfig w.fl.F) (m : Metrics) where
  serve :
      {p : Process w.fl.F}
      → Reach w (launch w api cfg m) p
      → (run : System.Reach (System.start (batcher_config cfg) m) p.system)
      → (i : ℕ) (resp : InferResponse) (b : IsBacked p.system i resp)
      → IsFromBackend (batcher_config cfg) (flushed run) (i, b.result)
      → ∥ IsServed (batcher_config cfg) (flushed run) resp ∥₁
  serve {p} reach run i resp b o =
      let asked = live-subset o.env o.batch o.result.request o.result.asked in
      let is_accepted : Mem o.result.request p.system.accepted =
        (Perm.mem_iff (Reach-IsExplained (batcher_config cfg) m run).taken).0 (
          mem-append_left (drained run ++ System.pending p.system)
            (batch-subset (flushed run) o.env o.batch o.was_flushed o.result.request asked)) in
      ∥∥₁_map
        (same_request p.system.accepted o.result.request b.request (Reach-Nodup w api cfg m reach).0
          is_accepted b.is_accepted (o.result.channel ∙ sym b.channel))
        (λ same. record {
          env = o.env;
          batch = o.batch;
          was_flushed = o.was_flushed;
          results = o.results;
          answered = o.answered;
          item = o.result.item;
          among = o.result.among;
          same_id = o.result.same_id ∙ ap (λ r. r.id) same ∙ b.same_id;
          no_error = o.result.no_error;
          output = b.output ∙ o.result.output;
        })

  -- In every run of the process, a response that carries output carries that of an item which the
  -- backend answered in some flush of the run, with the response's request ID and without an error.
  pub Reach-IsServed :
      {p : Process w.fl.F} (reach : Reach w (launch w api cfg m) p) (i : ℕ) (resp : InferResponse)
      → Mem (i, response resp) p.replies
      → resp.output_data ≢ []
      → ∥ IsServed (batcher_config cfg) (all_flushed reach) resp ∥₁
  Reach-IsServed reach i resp k full =
      let (run, e) = Reach-Flushing w api cfg m reach in
      ∥∥₁_elim (Reach-IsBacked w api cfg m reach i resp k full) ∥∥₁_prop (λ b.
        subst (λ fs. ∥ IsServed (batcher_config cfg) fs resp ∥₁) e
          (∥∥₁_elim
            (Reach-IsFromBackend (batcher_config cfg) m run (i, b.result) b.was_sent b.no_error)
            ∥∥₁_prop (serve reach run i resp b)))
