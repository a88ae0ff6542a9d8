-- ===== src/Sidecar/Process/Held.antt =====
-- An RPC that waits in its select has its request with the batcher.
use mathlib.Core.List.{
  not-mem-nil, mem_of_ne_of_mem, Mem, mem-cons_self, mem-append_left, mem-append_right,
}
use distri_inference_sidecar.Prelude.{
  ℕ, ◌≡◌, refl, subst, ap, ◌==◌, Bool-cases, inl, inr, arith, Option, none, some, List, [], ◌∷◌,
  ◌++◌,
}
use distri_inference_sidecar.Metrics.{Metrics}
use distri_inference_sidecar.VramGuard.{is_open}
use distri_inference_sidecar.VramGuard.Readers.{Nvml}
use distri_inference_sidecar.Batcher.Types.{Request, Result}
use distri_inference_sidecar.Batcher.Delivery.{channels}
use distri_inference_sidecar.Batcher.System
use distri_inference_sidecar.Batcher.System.{System}
use distri_inference_sidecar.Batcher.System.Own.{kept-IsOwn, accepted-IsStop}
use distri_inference_sidecar.GrpcServer.{InferRequest, Status, submitted}
use distri_inference_sidecar.Sidecar.{RuntimeConfig}
use distri_inference_sidecar.Sidecar.Process.{
  Phase, arrived, read, waiting, Call, Process, World, Step, arrives, reads, submits, receives,
  leaves, batches, watches, updates, ends_updates, is_signalled, rpcs_finish, stops, stops_guard,
  serves, http_breaks, closes, finishes, Reach, here, next, launch, submit_call, after_call,
  record_waiting,
}

abbrev pub IsHeld : List Request → Phase → InferRequest → ℕ → Type 0
IsHeld rs arrived req id = Unit
IsHeld rs (read c) req id = Unit
IsHeld rs waiting req id = Mem (submitted req id id) rs

abbrev pub AllHeld : List Request → List Call → Type 0
AllHeld rs [] = Unit
AllHeld rs (c ∷ cs) = IsHeld rs c.phase c.req c.id × AllHeld rs cs

module _ (ids : List Request) where
  AllHeld-drop :
      (before after : List Call) (c : Call)
      → AllHeld ids (before ++ c ∷ after)
      → AllHeld ids (before ++ after)
  AllHeld-drop [] after c h = h.1
  AllHeld-drop (b ∷ before) after c h = (h.0, AllHeld-drop before after c h.1)

  AllHeld-put :
      (before after : List Call) (c : Call)
      → IsHeld ids c.phase c.req c.id
      → AllHeld ids (before ++ after)
      → AllHeld ids (before ++ c ∷ after)
  AllHeld-put [] after c k h = (k, h)
  AllHeld-put (b ∷ before) after c k h = (h.0, AllHeld-put before after c k h.1)

  IsHeld-more :
      (more : List Request) (phase : Phase) (req : InferRequest) (id : ℕ)
      → IsHeld ids phase req id
      → IsHeld (ids ++ more) phase req id
  IsHeld-more more arrived req id h = tt
  IsHeld-more more (read c) req id h = tt
  IsHeld-more more waiting req id h = mem-append_left more h

  AllHeld-more : (more : List Request) (cs : List Call) → AllHeld ids cs → AllHeld (ids ++ more) cs
  AllHeld-more more [] h = tt
  AllHeld-more more (c ∷ cs) h = (IsHeld-more more c.phase c.req c.id h.0, AllHeld-more more cs h.1)

pub AllHeld-at :
    (ids : List Request) (cs before after : List Call) (c : Call)
    → cs ≡ before ++ c ∷ after
    → c.phase ≡ waiting
    → AllHeld ids cs
    → Mem (submitted c.req c.id c.id) ids
AllHeld-at ids cs before after c e a h = find before (subst (AllHeld ids) e h)
  where
    find : (bs : List Call) → AllHeld ids (bs ++ c ∷ after) → Mem (submitted c.req c.id c.id) ids
    find [] k = subst (λ ph. IsHeld ids ph c.req c.id) a k.0
    find (b ∷ bs) k = find bs k.1

abbrev pub Holds : {F : Type 0} → Process F → Type 0
Holds p = AllHeld (p.system.accepted) p.calls

after_call-Holds :
    {F : Type 0} (before after : List Call) (c : Call) (st : Option Status) (p : Process F)
    (s : System)
    → p.calls ≡ before ++ c ∷ after
    → s.accepted ≡ record_waiting st (submitted c.req c.id c.id) p.system.accepted
    → Holds p
    → Holds (after_call before after c st (record p { system = s }))
after_call-Holds before after c (some st) p s e q h =
    rw q (AllHeld-drop (p.system.accepted) before after c (rw (← e) h))
after_call-Holds before after c none p s e q h =
    let r = submitted c.req c.id c.id in
    let old = p.system.accepted in
    rw q (
      AllHeld-put (old ++ r ∷ []) before after (record c { phase = waiting })
        (mem-append_right old mem-cons_self)
        (AllHeld-more old (r ∷ []) (before ++ after)
          (AllHeld-drop old before after c (rw (← e) h))))

-- The result on a channel that has got one.
pub found :
    (id : ℕ) (sent : List (ℕ × Result))
    → Mem id (channels sent)
    → (earlier : List (ℕ × Result)) × (r : Result) × (later : List (ℕ × Result)) × (sent
        ≡ earlier ++ (id, r) ∷ later)
found id [] m = absurd (not-mem-nil m)
found id ((i, r) ∷ sent) m = elim (Bool-cases (id == i)) [
  | inl e ↦ ([], r, sent, ap (λ k. (k, r) ∷ sent) (ground arith))
  | inr e ↦
      let (earlier, s, later, h) = found id sent (mem_of_ne_of_mem (ground arith) m) in
      ((i, r) ∷ earlier, s, later, ap (λ ds. (i, r) ∷ ds) h)
]

module _ (w : World) where
  Step-Holds : {p q : Process w.fl.F} → Step w p q → Holds p → Holds q
  unfolding submit_call
  Step-Holds (arrives req e l) h = (tt, h)
  Step-Holds {p} (reads before after call e a) h =
      let ids = p.system.accepted in
      AllHeld-put ids before after (record call { phase = read (is_open w.fl p.watch.guard) }) tt
        (AllHeld-drop ids before after call (rw (← e) h))
  Step-Holds {p} (submits before after call c e a) h =
      let out = submit_call w.bpe_count c call p.system in
      after_call-Holds before after call out.1 p out.0 e refl h
  Step-Holds {p} (receives before after call earlier later r e a i) h =
      AllHeld-drop (p.system.accepted) before after call (rw (← e) h)
  Step-Holds {p} (leaves before after call x e a) h =
      AllHeld-drop (p.system.accepted) before after call (rw (← e) h)
  Step-Holds {p} (batches s st own) h = rw (kept-IsOwn st own).0 h
  Step-Holds {p} (stops s st e own) h = rw (accepted-IsStop st own) h
  Step-Holds (watches x st) h = h
  Step-Holds (updates u) h = h
  Step-Holds (ends_updates u v) h = h
  Step-Holds (is_signalled e) h = h
  Step-Holds (rpcs_finish e c) h = h
  Step-Holds (stops_guard e c) h = h
  Step-Holds (serves x st) h = h
  Step-Holds (http_breaks d g) h = h
  Step-Holds (closes x d g) h = h
  Step-Holds (finishes e g) h = h

  -- In every reachable state each RPC that waits has its request among the accepted ones.
  pub Reach-Holds :
      (api : Nvml) (cfg : RuntimeConfig w.fl.F) (m : Metrics) {p : Process w.fl.F}
      → Reach w (launch w api cfg m) p
      → Holds p
  unfolding launch System.start
  Reach-Holds api cfg m here = tt
  Reach-Holds api cfg m (next r st) = Step-Holds st (Reach-Holds api cfg m r)
