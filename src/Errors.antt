-- ===== src/Errors.antt =====
-- Go error values, and the sentinels of internal/batcher/errors.go, of internal/tokenizer and of
-- the context package. `errors.New` at package level is a sentinel; `fmt.Errorf` makes a plain
-- error, or one that wraps another if its format has `%w`.
use distri_inference_sidecar.Prelude.{ℕ, Bool, false, ◌++◌, Bytes, codes, ◌==◌}

pub data Sentinel : Type 0 where
  err_circuit_open err_queue_full err_batcher_stopped : Sentinel
  err_backend_unavailable err_backend_response_invalid : Sentinel
  err_tokenizer_failure : Sentinel
  canceled deadline_exceeded : Sentinel

pub data GoError : Type 0 where
  sentinel : Sentinel → GoError
  plain : Bytes → GoError
  -- `wrapped p e s` is `fmt.Errorf` of the text `p`, then `%w` at `e`, then the text `s`.
  wrapped : Bytes → GoError → Bytes → GoError

-- The number by which two sentinels are told apart: Go compares their addresses.
abbrev sentinel_id : Sentinel → ℕ
sentinel_id err_circuit_open = 0
sentinel_id err_queue_full = 1
sentinel_id err_batcher_stopped = 2
sentinel_id err_backend_unavailable = 3
sentinel_id err_backend_response_invalid = 4
sentinel_id err_tokenizer_failure = 5
sentinel_id canceled = 6
sentinel_id deadline_exceeded = 7

unfoldable pub sentinel_text : Sentinel → Bytes
sentinel_text err_circuit_open = codes "vram guard: circuit open, try again later"
sentinel_text err_queue_full = codes "batch queue full, try again later"
sentinel_text err_batcher_stopped = codes "batcher stopped"
sentinel_text err_backend_unavailable = codes "backend unavailable"
sentinel_text err_backend_response_invalid = codes "backend response invalid"
sentinel_text err_tokenizer_failure = codes "tokenizer failure"
sentinel_text canceled = codes "context canceled"
sentinel_text deadline_exceeded = codes "context deadline exceeded"

-- `err.Error()`.
unfoldable pub error_text : GoError → Bytes
error_text (sentinel s) = sentinel_text s
error_text (plain t) = t
error_text (wrapped p e s) = p ++ (error_text e ++ s)

-- `errors.Is(err, target)`.
abbrev pub errors_is : GoError → Sentinel → Bool
errors_is (sentinel s) t = sentinel_id s == sentinel_id t
errors_is (plain _) t = false
errors_is (wrapped _ e _) t = errors_is e t

-- A call that returns a value and an error, the value being read only if the error is nil.
pub data Fallible {ℓ} (A : Type ℓ) : Type ℓ where
  ok : A → Fallible A
  err : GoError → Fallible A

infixl 5 ◌>>=◌
abbrev pub ◌>>=◌ {ℓ κ} : {A : Type ℓ} {B : Type κ} → Fallible A → (A → Fallible B) → Fallible B
ok a >>= f = f a
err e >>= f = err e
