-- ===== src/Sidecar/Process/Listening.antt =====
-- The call of Serve against the RPCs.
use distri_inference_sidecar.Prelude.{
  ◌≡◌, refl, sym, ap, subst, ◌∙◌, Bool, true, false, Option, none, some, List, [], ◌∷◌, ◌++◌, arith,
}
use distri_inference_sidecar.Metrics.{Metrics}
use distri_inference_sidecar.VramGuard.Readers.{Nvml}
use distri_inference_sidecar.Batcher.System
use distri_inference_sidecar.Batcher.System.{System}
use distri_inference_sidecar.Batcher.System.Own.{kept-IsOwn, accepted-IsStop}
use distri_inference_sidecar.GrpcServer.{Status}
use distri_inference_sidecar.GrpcServer.Serving
use distri_inference_sidecar.GrpcServer.Serving.{
  ServeCall, starting, listening, refused, left, Server, HasListened, listen_error,
}
use distri_inference_sidecar.Sidecar.{RuntimeConfig}
use distri_inference_sidecar.Sidecar.Process.{
  Stage, serving, Call, Process, World, Step, arrives, reads, submits, receives, leaves, batches,
  watches, updates, ends_updates, is_signalled, rpcs_finish, stops, stops_guard, serves,
  http_breaks, closes, finishes, Reach, here, next, launch, submit_call, after_call,
}

abbrev pub is_signalled_at : Stage → Bool
is_signalled_at serving = false
is_signalled_at _ = true

-- No RPC has arrived, and the batcher has accepted nothing.
abbrev pub Unheard : {F : Type 0} → Process F → Type 0
Unheard p = (p.calls ≡ []) × (p.next_id ≡ 0) × (p.replies ≡ []) × (p.system.accepted ≡ [])

-- What the progress of Serve says of the process.
abbrev pub Heard : {F : Type 0} → ServeCall → Process F → Type 0
Heard starting p = Unheard p
Heard (refused e) p = Unheard p
Heard listening p = Unit
Heard (left none) p = is_signalled_at p.stage ≡ true
Heard (left (some e)) p = Unit

pub record IsServing {F : Type 0} (p : Process F) : Type 0 where
  pub stopped : p.server.is_stopped ≡ is_signalled_at p.stage
  pub heard : Heard p.server.serve_call p

module _ {F : Type 0} (p q : Process F) where
  Heard-step :
      (c : ServeCall)
      → (Unheard p → Unheard q)
      → is_signalled_at q.stage ≡ is_signalled_at p.stage
      → Heard c p
      → Heard c q
  Heard-step starting f e h = f h
  Heard-step (refused x) f e h = f h
  Heard-step listening f e h = tt
  Heard-step (left none) f e h = e ∙ h
  Heard-step (left (some x)) f e h = tt

  Heard-listened :
      (c : ServeCall)
      → HasListened c
      → is_signalled_at q.stage ≡ is_signalled_at p.stage
      → Heard c p
      → Heard c q
  Heard-listened starting l e h = absurd l
  Heard-listened (refused x) l e h = absurd l
  Heard-listened listening l e h = tt
  Heard-listened (left none) l e h = e ∙ h
  Heard-listened (left (some x)) l e h = tt

  -- A step of one of the other parts.
  aside :
      q.server ≡ p.server
      → is_signalled_at q.stage ≡ is_signalled_at p.stage
      → (Unheard p → Unheard q)
      → IsServing p
      → IsServing q
  aside s e f h = record {
    stopped = ap (λ x. x.is_stopped) s ∙ h.stopped ∙ sym e;
    heard = subst (λ x. Heard x.serve_call q) (sym s) (Heard-step p.server.serve_call f e h.heard);
  }

-- Without RPCs there is none to take a step.
no_call :
    {F : Type 0} {A : Type 0} (p : Process F) (before after : List Call) (c : Call)
    → p.calls ≡ before ++ c ∷ after
    → Unheard p
    → A
no_call p [] after c e u = ground arith
no_call p (b ∷ before) after c e u = ground arith

after_call-IsServing :
    {F : Type 0} (before after : List Call) (c : Call) (st : Option Status) (p : Process F)
    (s : System)
    → p.calls ≡ before ++ c ∷ after
    → IsServing p
    → IsServing (after_call before after c st (record p { system = s }))
after_call-IsServing before after c none p s e h =
    aside p _ refl refl (no_call p before after c e) h
after_call-IsServing before after c (some st) p s e h =
    aside p _ refl refl (no_call p before after c e) h

-- The steps of Serve.
Heard-serves :
    {F : Type 0} (p : Process F) (x : Server)
    → Serving.Step p.server x
    → IsServing p
    → Heard x.serve_call p
Heard-serves p x (Serving.fails e a) h = subst (λ c. Heard c p) a h.heard
Heard-serves p x (Serving.listens a b) h = tt
Heard-serves p x (Serving.refuses e a b) h = subst (λ c. Heard c p) a h.heard
Heard-serves p x (Serving.breaks e a) h = tt
Heard-serves p x (Serving.returns a b) h = sym h.stopped ∙ b

is_stopped-serves : {s x : Server} → Serving.Step s x → x.is_stopped ≡ s.is_stopped
is_stopped-serves (Serving.fails e a) = refl
is_stopped-serves (Serving.listens a b) = refl
is_stopped-serves (Serving.refuses e a b) = refl
is_stopped-serves (Serving.breaks e a) = refl
is_stopped-serves (Serving.returns a b) = refl

module _ (w : World) where
  pub Step-IsServing : {p q : Process w.fl.F} → Step w p q → IsServing p → IsServing q
  unfolding submit_call
  Step-IsServing {p} {q} (arrives req e l) h = record {
    stopped = h.stopped;
    heard = Heard-listened p q p.server.serve_call l refl h.heard;
  }
  Step-IsServing {p} (reads before after call e a) h =
      aside p _ refl refl (no_call p before after call e) h
  Step-IsServing {p} (submits before after call c e a) h =
      let out = submit_call w.bpe_count c call p.system in
      after_call-IsServing before after call out.1 p out.0 e h
  Step-IsServing {p} (receives before after call earlier later r e a i) h =
      aside p _ refl refl (no_call p before after call e) h
  Step-IsServing {p} (leaves before after call x e a) h =
      aside p _ refl refl (no_call p before after call e) h
  Step-IsServing {p} (batches s st own) h =
      aside p _ refl refl (λ u. (u.0, u.1, u.2, (kept-IsOwn st own).0 ∙ u.3)) h
  Step-IsServing {p} (stops s st e own) h =
      aside p _ refl refl (λ u. (u.0, u.1, u.2, accepted-IsStop st own ∙ u.3)) h
  Step-IsServing {p} (watches x st) h = aside p _ refl refl (λ u. u) h
  Step-IsServing {p} (updates u) h = aside p _ refl refl (λ k. k) h
  Step-IsServing {p} (ends_updates u v) h = aside p _ refl refl (λ k. k) h
  Step-IsServing {p} {q} (is_signalled e) h = record {
    stopped = refl;
    heard = Heard-signalled p.server.serve_call h.heard;
  }
    where
      Heard-signalled : (c : ServeCall) → Heard c p → Heard c q
      Heard-signalled starting k = k
      Heard-signalled (refused x) k = k
      Heard-signalled listening k = tt
      Heard-signalled (left none) k = refl
      Heard-signalled (left (some x)) k = tt
  Step-IsServing {p} (rpcs_finish e c) h = aside p _ refl (rw e) (λ u. u) h
  Step-IsServing {p} (stops_guard e d) h = aside p _ refl (rw e) (λ u. u) h
  Step-IsServing {p} (serves x st) h = record {
    stopped = is_stopped-serves st ∙ h.stopped;
    heard = Heard-step p _ x.serve_call (λ u. u) refl (Heard-serves p x st h);
  }
  Step-IsServing {p} (http_breaks d g) h = aside p _ refl refl (λ u. u) h
  Step-IsServing {p} (closes x d g) h = aside p _ refl refl (λ u. u) h
  Step-IsServing {p} (finishes e g) h = aside p _ refl (rw e) (λ u. u) h

  -- In every reachable state GracefulStop has been called exactly behind the signal; as long as
  -- Serve has not listened, or if it returned without having served, no RPC has arrived and the
  -- batcher has accepted nothing; and Serve has returned nil only behind the signal.
  pub Reach-IsServing :
      (api : Nvml) (cfg : RuntimeConfig w.fl.F) (m : Metrics) {p : Process w.fl.F}
      → Reach w (launch w api cfg m) p
      → IsServing p
  unfolding launch System.start
  Reach-IsServing api cfg m here = record { stopped = refl; heard = (refl, refl, refl, refl) }
  Reach-IsServing api cfg m (next r st) = Step-IsServing st (Reach-IsServing api cfg m r)
