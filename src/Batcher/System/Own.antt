-- ===== src/Batcher/System/Own.antt =====
-- The steps of the batcher's own goroutines, and those of a call of Stop.
use distri_inference_sidecar.Prelude.{◌≡◌, refl, [], ◌∷◌, ◌∙◌}
use distri_inference_sidecar.Batcher.System.{
  System, Step, submits, peeks, receives, times_out, sees_stop, dispatches, drains, returns,
  flushes, ticks, stops_tracking, rejects, locks, signals, waits, Reach, next, dispatch,
  take_request,
}

abbrev pub IsOwn : {s t : System} → Step s t → Type 0
IsOwn (submits is_open r) = ⊥
IsOwn rejects = ⊥
IsOwn (locks e) = ⊥
IsOwn (signals e) = ⊥
IsOwn (waits e w) = ⊥
IsOwn _ = Unit

abbrev pub IsStop : {s t : System} → Step s t → Type 0
IsStop (locks e) = Unit
IsStop (signals e) = Unit
IsStop (waits e w) = Unit
IsStop _ = ⊥

-- The batcher's goroutines on their own.
pub data OwnReach (s : System) : System → Type 0 where
  own_here : OwnReach s s
  own_next : {t u : System} → OwnReach s t → (st : Step t u) → IsOwn st → OwnReach s u

pub OwnReach-trans : {s t u : System} → OwnReach s t → OwnReach t u → OwnReach s u
OwnReach-trans p own_here = p
OwnReach-trans p (own_next q st own) = own_next (OwnReach-trans p q) st own

pub OwnReach-after : {s t u : System} → Reach s t → OwnReach t u → Reach s u
OwnReach-after p own_here = p
OwnReach-after p (own_next q st own) = next (OwnReach-after p q) st

-- The batcher's own steps accept nothing and leave Stop where it is.
pub kept-IsOwn :
    {s t : System} (st : Step s t)
    → IsOwn st
    → (t.accepted ≡ s.accepted) × (t.stopping ≡ s.stopping)
unfolding dispatch take_request
kept-IsOwn (submits is_open r) own = absurd own
kept-IsOwn rejects own = absurd own
kept-IsOwn (locks e) own = absurd own
kept-IsOwn (signals e) own = absurd own
kept-IsOwn (waits e w) own = absurd own
kept-IsOwn (peeks e) own = (refl, refl)
kept-IsOwn (receives batch r rest e q) own = (refl, refl)
kept-IsOwn (times_out batch e) own = (refl, refl)
kept-IsOwn (sees_stop batch e c) own = (refl, refl)
kept-IsOwn (dispatches [] e) own = (refl, refl)
kept-IsOwn (dispatches (r ∷ rs) e) own = (refl, refl)
kept-IsOwn (drains r rest e q) own = (refl, refl)
kept-IsOwn (returns e q) own = (refl, refl)
kept-IsOwn (flushes env before after batch ranged e) own = (refl, refl)
kept-IsOwn (ticks e) own = (refl, refl)
kept-IsOwn (stops_tracking e c) own = (refl, refl)

pub kept-OwnReach :
    {s t : System} → OwnReach s t → (t.accepted ≡ s.accepted) × (t.stopping ≡ s.stopping)
kept-OwnReach own_here = (refl, refl)
kept-OwnReach (own_next r st own) =
    let (a, p) = kept-IsOwn st own in let (b, q) = kept-OwnReach r in (a ∙ b, p ∙ q)

-- The steps of Stop accept nothing.
pub accepted-IsStop : {s t : System} (st : Step s t) → IsStop st → t.accepted ≡ s.accepted
accepted-IsStop (locks e) own = refl
accepted-IsStop (signals e) own = refl
accepted-IsStop (waits e w) own = refl
accepted-IsStop (submits is_open r) own = absurd own
accepted-IsStop rejects own = absurd own
accepted-IsStop (peeks e) own = absurd own
accepted-IsStop (receives batch r rest e q) own = absurd own
accepted-IsStop (times_out batch e) own = absurd own
accepted-IsStop (sees_stop batch e c) own = absurd own
accepted-IsStop (dispatches batch e) own = absurd own
accepted-IsStop (drains r rest e q) own = absurd own
accepted-IsStop (returns e q) own = absurd own
accepted-IsStop (flushes env before after batch ranged e) own = absurd own
accepted-IsStop (ticks e) own = absurd own
accepted-IsStop (stops_tracking e c) own = absurd own
