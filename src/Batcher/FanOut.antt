-- ===== src/Batcher/FanOut.antt =====
-- The fan-out of flushBatch sends what `answers` says.
use mathlib.Core.List.{map-append, append_assoc, append-nil}
use mathlib.Core.List.Perm
use distri_inference_sidecar.Prelude.{
  ℕ, ◌≡◌, refl, sym, ap, ◌∙◌, List, [], ◌∷◌, ◌++◌, map, Perm, Bytes, bytes_eq, Bool-cases,
  List-cases, inl, inr, arith,
}
use distri_inference_sidecar.Batcher.Types.{Request, Delivery, SingleResult, Out, send}
use distri_inference_sidecar.Batcher.ReqMap.{ReqMap, get, put, group}
use distri_inference_sidecar.Batcher.Waiters.{
  with_id, without, waiting, keyed, Represents, group-Represents, pop-Represents, waiting-perm,
}
use distri_inference_sidecar.Batcher.Flush.{
  Env, reply, count_reply, fan_out, missing, failure, fail_request, fail_entry, fail_missing,
  deliver,
}
use distri_inference_sidecar.Batcher.Answers.{take_result, answers}

-- A result for which nobody waits changes no answer.
answers-unknown :
    (latency : ℕ) (res : SingleResult) (results : List SingleResult) (rs : List Request)
    → with_id res.id rs ≡ []
    → answers latency (res ∷ results) rs ≡ answers latency results rs
unfolding with_id answers
answers-unknown latency res results [] h = refl
answers-unknown latency res results (r ∷ rs) h =
    ground (arith, answers-unknown latency res (take_result r.id results).1 rs)

-- Otherwise it is the answer of the first who waits for it.
answers-known :
    (latency : ℕ) (res : SingleResult) (results : List SingleResult) (rs : List Request)
    (r : Request) (more : List Request)
    → with_id res.id rs ≡ r ∷ more
    → Perm
        (answers latency (res ∷ results) rs)
        ((r.result_ch, reply latency res) ∷ answers latency results (without res.id rs))
unfolding with_id without answers
answers-known latency res results [] r more h = cc
answers-known latency res results (q ∷ rs) r more h = elim (Bool-cases (bytes_eq q.id res.id)) [
  | inl hit ↦ rw hit (Perm.cons' (ground arith) Perm.rfl)
  | inr miss ↦ rw miss (
      Perm.trans
        (Perm.cons _
          (answers-known latency res (take_result q.id results).1 rs r more (ground arith)))
        (Perm.swap _ _ _))
]

-- The error for one waiter to whom the backend sent nothing.
abbrev unanswered : Bytes × Request → Delivery
unanswered (id, r) = (r.result_ch, failure (missing id))

sent-fail_entry :
    (id : Bytes) (rs : List Request) (out : Out)
    → (fail_entry id rs out).sent ≡ out.sent ++ map unanswered (map (λ r. (id, r)) rs)
unfolding fail_entry fail_request
sent-fail_entry id [] out = sym (append-nil _)
sent-fail_entry id (r ∷ rs) out =
    sent-fail_entry id rs (fail_request r (missing id) out)
    ∙ append_assoc out.sent (unanswered (id, r) ∷ []) (map unanswered (map (λ q. (id, q)) rs))

sent-fail_missing :
    (m : ReqMap) (out : Out) → (fail_missing m out).sent ≡ out.sent ++ map unanswered (waiting m)
unfolding fail_missing waiting
sent-fail_missing [] out = sym (append-nil _)
sent-fail_missing ((id, rs) ∷ m) out =
    sent-fail_missing m (fail_entry id rs out) ∙ simp (sent-fail_entry, append_assoc, map-append)

answers-nil : (latency : ℕ) (rs : List Request) → answers latency [] rs ≡ map unanswered (keyed rs)
unfolding answers
answers-nil latency [] = refl
answers-nil latency (r ∷ rs) = ap (λ ds. unanswered (r.id, r) ∷ ds) (answers-nil latency rs)

sent-count_reply : (res : SingleResult) (out : Out) → (count_reply res out).sent ≡ out.sent
unfolding count_reply
sent-count_reply res out = ground arith

module _ (env : Env) (ranged : (m : ReqMap) → Perm (env.ranged m) m) where
  -- All that the two loops send, the map being ranged over in any order.
  sent-loops :
      (results : List SingleResult) (m : ReqMap) (rs : List Request) (out : Out)
      → Represents m rs
      → let (left, out') = fan_out env.latency_ms results m out in
        Perm
          (fail_missing (env.ranged left) out').sent
          (out.sent ++ answers env.latency_ms results rs)
  unfolding fan_out
  sent-loops [] m rs out h =
      rw (sent-fail_missing, answers-nil)
        (Perm.append_left out.sent
          (Perm.map unanswered (Perm.trans (waiting-perm (ranged m)) h.all)))
  sent-loops (res ∷ results) m rs out h = elim (List-cases (get res.id m)) [
    | inl e ↦
        rw (e, fan_out, answers-unknown env.latency_ms res results rs (sym (h.queues res.id) ∙ e))
          (sent-loops results m rs out h)
    | inr (r, more, e) ↦
        rw (e, fan_out)
          (Perm.trans
            (sent-loops results (put res.id more m) (without res.id rs)
              (send (count_reply res out) r.result_ch (reply env.latency_ms res))
              (pop-Represents res.id m rs r more h e))
            (rw (sent-count_reply, append_assoc)
              (Perm.append_left out.sent (
                Perm.symm (
                  answers-known env.latency_ms res results rs r more
                    (sym (h.queues res.id) ∙ e))))))
  ]

  -- `deliver` sends every answer, and nothing else.
  pub sent-deliver :
      (batch : List Request) (results : List SingleResult) (out : Out)
      → Perm (deliver env batch results out).sent (out.sent ++ answers env.latency_ms results batch)
  unfolding deliver
  sent-deliver batch results out =
      sent-loops results (group batch) batch out (group-Represents batch)
