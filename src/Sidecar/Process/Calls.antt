-- ===== src/Sidecar/Process/Calls.antt =====
-- The numbers of the RPCs: none is lost, none is answered twice, and none is used for two requests
-- of the batcher.
use mathlib.Core.List.{map-append, perm_middle}
use mathlib.Core.List.Perm
use mathlib.Core.List.{Mem, mem-cons, not-mem-nil, Nodup, Nodup-nil, Nodup-cons}
use mathlib.Core.Logic.Or
use native.Mathlib.Bridge.{le_prop}
use distri_inference_sidecar.Prelude.{
  ℕ, zero, suc, arith, ◌<◌, ◌≡◌, refl, ap, Option, none, some, List, [], ◌∷◌, ◌++◌, map, Perm,
}
use distri_inference_sidecar.Metrics.{Metrics}
use distri_inference_sidecar.VramGuard.Readers.{Nvml}
use distri_inference_sidecar.GrpcServer.{Reply, Status, status, infer_wait, received, context_done}
use distri_inference_sidecar.Sidecar.{RuntimeConfig}
use distri_inference_sidecar.Sidecar.Process.{
  Phase, read, waiting, Call, Process, World, Step, arrives, reads, submits, receives, leaves,
  batches, watches, updates, ends_updates, is_signalled, rpcs_finish, stops, stops_guard, serves,
  http_breaks, closes, finishes, Reach, here, next, launch, submit_call, after_call, move_call,
  answer,
}

abbrev pub ids : List Call → List ℕ
ids = map (λ c. c.id)

abbrev pub reply_ids : List (ℕ × Reply) → List ℕ
reply_ids = map (λ r. r.0)

-- The numbers given so far.
abbrev pub below : ℕ → List ℕ
below zero = []
below (suc n) = n ∷ below n

mem-below : {a : ℕ} (n : ℕ) → Mem a (below n) → a < n
mem-below zero m = absurd (not-mem-nil m)
mem-below (suc n) m =
    Or.elim le_prop (mem-cons.0 m) (λ e. omega (arith, e)) (λ k. omega (arith, mem-below n k))

pub Nodup-below : (n : ℕ) → Nodup (below n)
Nodup-below zero = Nodup-nil
Nodup-below (suc n) = Nodup-cons.1 ((λ m. absurd (omega (arith, mem-below n m))), Nodup-below n)

abbrev pub IsAccounted : {F : Type 0} → Process F → Type 0
IsAccounted p = Perm (ids p.calls ++ reply_ids p.replies) (below p.next_id)

ids-move :
    (before after : List Call) (call : Call) (phase : Phase)
    → ids (before ++ record call { phase = phase } ∷ after) ≡ ids (before ++ call ∷ after)
ids-move [] after call phase = refl
ids-move (c ∷ before) after call phase = ap (λ is. c.id ∷ is) (ids-move before after call phase)

move-IsAccounted :
    {F : Type 0} (before after : List Call) (call : Call) (phase : Phase) (p : Process F)
    → p.calls ≡ before ++ call ∷ after
    → IsAccounted p
    → IsAccounted (move_call before after call phase p)
move-IsAccounted before after call phase p e h = rw (ids-move before after call phase, ← e) h

ids-middle :
    (before after : List Call) (call : Call)
    → Perm (call.id ∷ ids (before ++ after)) (ids (before ++ call ∷ after))
ids-middle before after call =
    rw (map-append, map-append) (Perm.symm (perm_middle (ids before) (ids after)))

answer-IsAccounted :
    {F : Type 0} (before after : List Call) (call : Call) (reply : Reply) (p : Process F)
    → p.calls ≡ before ++ call ∷ after
    → IsAccounted p
    → IsAccounted (answer before after call reply p)
answer-IsAccounted before after call reply p e h =
    Perm.trans (perm_middle (ids (before ++ after)) (reply_ids p.replies)) (
      Perm.trans (Perm.append_right (reply_ids p.replies) (ids-middle before after call))
        (rw (← e) h))

after_call-IsAccounted :
    {F : Type 0} (before after : List Call) (call : Call) (st : Option Status) (p : Process F)
    → p.calls ≡ before ++ call ∷ after
    → IsAccounted p
    → IsAccounted (after_call before after call st p)
after_call-IsAccounted before after call none p e h =
    move-IsAccounted before after call waiting p e h
after_call-IsAccounted before after call (some st) p e h =
    answer-IsAccounted before after call (status st) p e h

module _ (w : World) where
  Step-IsAccounted : {p q : Process w.fl.F} → Step w p q → IsAccounted p → IsAccounted q
  Step-IsAccounted {p} (arrives req e l) h = Perm.cons p.next_id h
  Step-IsAccounted {p} (reads before after call e a) h =
      move-IsAccounted before after call (read _) p e h
  Step-IsAccounted {p} (submits before after call is_open e a) h =
      let out = submit_call w.bpe_count is_open call p.system in
      after_call-IsAccounted before after call out.1 (record p { system = out.0 }) e h
  Step-IsAccounted {p} (receives before after call earlier later r e a i) h =
      answer-IsAccounted before after call (infer_wait call.req (received r)) p e h
  Step-IsAccounted {p} (leaves before after call x e a) h =
      answer-IsAccounted before after call (infer_wait call.req (context_done x)) p e h
  Step-IsAccounted (batches s st own) h = h
  Step-IsAccounted (watches x st) h = h
  Step-IsAccounted (updates u) h = h
  Step-IsAccounted (ends_updates u v) h = h
  Step-IsAccounted (is_signalled e) h = h
  Step-IsAccounted (rpcs_finish e c) h = h
  Step-IsAccounted (stops s st e c) h = h
  Step-IsAccounted (stops_guard e c) h = h
  Step-IsAccounted (serves x st) h = h
  Step-IsAccounted (http_breaks d g) h = h
  Step-IsAccounted (closes x d g) h = h
  Step-IsAccounted (finishes e g) h = h

  -- In every reachable state the RPCs that have arrived are, each once, those in progress and those
  -- with a reply.
  pub Reach-IsAccounted :
      (api : Nvml) (cfg : RuntimeConfig w.fl.F) (m : Metrics) {p : Process w.fl.F}
      → Reach w (launch w api cfg m) p
      → IsAccounted p
  unfolding launch
  Reach-IsAccounted api cfg m here = Perm.nil
  Reach-IsAccounted api cfg m (next r st) = Step-IsAccounted st (Reach-IsAccounted api cfg m r)
