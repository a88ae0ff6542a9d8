-- ===== src/Sidecar/Process/Replies.antt =====
-- What stands behind a response that carries output.
use mathlib.Core.List.{Mem, mem-cons, mem-cons_self, mem-append_right, not-mem-nil}
use mathlib.Core.Logic.Or
use mathlib.Core.Logic.{∥∥₁_prop, ∥∥₁_map}
use distri_inference_sidecar.Prelude.{
  ℕ, ◌≡◌, ◌≢◌, refl, sym, subst, Option, none, some, List, [], ◌∷◌, ◌⊎◌, inl, inr,
}
use distri_inference_sidecar.Errors.{GoError}
use distri_inference_sidecar.Metrics.{Metrics}
use distri_inference_sidecar.VramGuard.Readers.{Nvml}
use distri_inference_sidecar.Batcher.Types.{Request, Result}
use distri_inference_sidecar.Batcher.System.{System}
use distri_inference_sidecar.Batcher.System.Growing.{Grows, Reach-Grows}
use distri_inference_sidecar.GrpcServer.{
  InferRequest, InferResponse, Reply, response, Status, status, submitted, infer_wait, received,
  result_reply, failed_reply, status_from_result_err,
}
use distri_inference_sidecar.Sidecar.{RuntimeConfig}
use distri_inference_sidecar.Sidecar.Process.{
  Call, Process, World, Step, arrives, reads, submits, receives, leaves, batches, watches, updates,
  ends_updates, is_signalled, rpcs_finish, stops, stops_guard, serves, http_breaks, closes,
  finishes, Reach, here, next, launch, submit_call, after_call,
}
use distri_inference_sidecar.Sidecar.Process.Batching.{Step-batching}
use distri_inference_sidecar.Sidecar.Process.Held.{Holds, AllHeld-at, Reach-Holds}

-- A response's output was sent on the channel of an accepted request with the response's ID.
pub record IsBacked (s : System) (i : ℕ) (resp : InferResponse) : Type 0 where
  pub request : Request
  pub result : Result
  pub is_accepted : Mem request s.accepted
  pub channel : request.result_ch ≡ i
  pub same_id : request.id ≡ resp.request_id
  pub was_sent : Mem (i, result) s.b.out.sent
  pub no_error : result.err ≡ none
  pub output : resp.output_data ≡ result.output_data

abbrev Entry : System → ℕ → Reply → Type 0
Entry s i (response resp) = (resp.output_data ≡ []) ⊎ IsBacked s i resp
Entry s i (status st) = Unit

abbrev AllBacked : System → List (ℕ × Reply) → Type 0
AllBacked s [] = Unit
AllBacked s ((i, reply) ∷ rs) = Entry s i reply × AllBacked s rs

Entry-Grows : (s t : System) (i : ℕ) (reply : Reply) → Grows s t → Entry s i reply → Entry t i reply
Entry-Grows s t i (status st) g h = tt
Entry-Grows s t i (response resp) g (inl e) = inl e
Entry-Grows s t i (response resp) g (inr b) = inr (record {
  request = b.request;
  result = b.result;
  is_accepted = g.1 b.request b.is_accepted;
  channel = b.channel;
  same_id = b.same_id;
  was_sent = g.0 (i, b.result) b.was_sent;
  no_error = b.no_error;
  output = b.output;
})

AllBacked-Grows :
    (s t : System) (rs : List (ℕ × Reply)) → Grows s t → AllBacked s rs → AllBacked t rs
AllBacked-Grows s t [] g h = tt
AllBacked-Grows s t ((i, reply) ∷ rs) g h =
    (Entry-Grows s t i reply g h.0, AllBacked-Grows s t rs g h.1)

-- The reply of an RPC that receives a result.
received-Entry :
    (s : System) (i : ℕ) (req : InferRequest) (r : Result)
    → Mem (submitted req i i) s.accepted
    → Mem (i, r) s.b.out.sent
    → Entry s i (infer_wait req (received r))
unfolding infer_wait
received-Entry s i req r acc sent = by_error r.err refl
  where
    by_status : (e : GoError) (st : Option Status) → Entry s i (failed_reply req e st)
    by_status e none = inl refl
    by_status e (some st) = tt

    by_error : (e : Option GoError) → r.err ≡ e → Entry s i (result_reply req r e)
    by_error (some e) h = by_status e (status_from_result_err e)
    by_error none h = inr (record {
      request = submitted req i i;
      result = r;
      is_accepted = acc;
      channel = refl;
      same_id = refl;
      was_sent = sent;
      no_error = h;
      output = refl;
    })

AllBacked-after_call :
    {F : Type 0} (before after : List Call) (c : Call) (st : Option Status) (p : Process F)
    → AllBacked (after_call before after c st p).system p.replies
    → AllBacked (after_call before after c st p).system (after_call before after c st p).replies
AllBacked-after_call before after c none p h = h
AllBacked-after_call before after c (some st) p h = (tt, h)

module _ (w : World) where
  Step-AllBacked :
      {p q : Process w.fl.F}
      → Step w p q
      → Holds p
      → AllBacked q.system p.replies
      → AllBacked q.system q.replies
  unfolding submit_call infer_wait
  Step-AllBacked (arrives req e l) k h = h
  Step-AllBacked (reads before after call e a) k h = h
  Step-AllBacked {p} (submits before after call c e a) k h =
      let out = submit_call w.bpe_count c call p.system in
      AllBacked-after_call before after call out.1 (record p { system = out.0 }) h
  Step-AllBacked {p} (receives before after call earlier later r e a i) k h = (
    received-Entry p.system call.id call.req r
        (AllHeld-at p.system.accepted p.calls before after call e a k)
        (subst (Mem (call.id, r)) (sym i) (mem-append_right earlier mem-cons_self)),
    h,
  )
  Step-AllBacked {p} (leaves before after call x e a) k h = (tt, h)
  Step-AllBacked {p} (batches s st own) k h = h
  Step-AllBacked {p} (stops s st e own) k h = h
  Step-AllBacked (watches x st) k h = h
  Step-AllBacked (updates u) k h = h
  Step-AllBacked (ends_updates u v) k h = h
  Step-AllBacked (is_signalled e) k h = h
  Step-AllBacked (rpcs_finish e c) k h = h
  Step-AllBacked (stops_guard e c) k h = h
  Step-AllBacked (serves x st) k h = h
  Step-AllBacked (http_breaks d g) k h = h
  Step-AllBacked (closes x d g) k h = h
  Step-AllBacked (finishes e g) k h = h

  Reach-AllBacked :
      (api : Nvml) (cfg : RuntimeConfig w.fl.F) (m : Metrics) {p : Process w.fl.F}
      → Reach w (launch w api cfg m) p
      → AllBacked p.system p.replies
  unfolding launch
  Reach-AllBacked api cfg m here = tt
  Reach-AllBacked api cfg m (next {q} {r} reach st) =
      Step-AllBacked st (Reach-Holds w api cfg m reach) (
        AllBacked-Grows q.system r.system q.replies (Reach-Grows (Step-batching w st))
          (Reach-AllBacked api cfg m reach))

AllBacked-mem :
    (s : System) (rs : List (ℕ × Reply)) (i : ℕ) (reply : Reply)
    → AllBacked s rs
    → Mem (i, reply) rs
    → ∥ Entry s i reply ∥₁
AllBacked-mem s [] i reply h m = absurd (not-mem-nil m)
AllBacked-mem s (e ∷ rs) i reply h m =
    Or.elim ∥∥₁_prop (mem-cons.0 m) (λ p. subst (λ x. ∥ Entry s x.0 x.1 ∥₁) (sym p) (∣ h.0 ∣₁))
      (λ k. AllBacked-mem s rs i reply h.1 k)

module _ (w : World) where
  -- A response with output was sent as a result to an accepted request with the response's ID.
  pub Reach-IsBacked :
      (api : Nvml) (cfg : RuntimeConfig w.fl.F) (m : Metrics) {p : Process w.fl.F}
      → Reach w (launch w api cfg m) p
      → (i : ℕ) (resp : InferResponse) → Mem (i, response resp) p.replies
      → resp.output_data ≢ []
      → ∥ IsBacked p.system i resp ∥₁
  Reach-IsBacked api cfg m {p} reach i resp k full =
      ∥∥₁_map
        (AllBacked-mem p.system p.replies i (response resp) (Reach-AllBacked w api cfg m reach) k)
        (λ e. elim e [ inl empty ↦ absurd (full empty) | inr b ↦ b ])
