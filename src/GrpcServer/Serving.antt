-- ===== src/GrpcServer/Serving.antt =====
-- internal/grpcserver/server.go: Server, New, Serve and GracefulStop. The gRPC library is taken by
-- its documentation: its Serve returns an error if it is called behind GracefulStop or if the
-- listener fails, and nil if GracefulStop ends it.
use distri_inference_sidecar.Prelude.{
  ◌≡◌, Bool, true, false, Option, none, some, [], ◌++◌, Bytes, codes,
}
use distri_inference_sidecar.Errors.{GoError, wrapped}

-- Where the call of Serve stands: before its Listen, in the library's Serve, returned without having
-- listened or without having served, and returned from the library's Serve.
pub data ServeCall : Type 0 where
  starting listening : ServeCall
  refused : GoError → ServeCall
  left : Option GoError → ServeCall

-- `is_stopped` says that GracefulStop has been called. The batcher and the metrics are those of the
-- process.
pub record Server : Type 0 where
  pub addr : Bytes
  pub serve_call : ServeCall
  pub is_stopped : Bool

abbrev pub new : Bytes → Server
new addr = record { addr = addr; serve_call = starting; is_stopped = false }

-- `fmt.Errorf("failed to listen on %s: %w", s.addr, err)`
abbrev pub listen_error : Bytes → GoError → GoError
listen_error addr e = wrapped (codes "failed to listen on " ++ (addr ++ codes ": ")) e []

-- `fails` and `refuses` take what net.Listen and the library return.
pub data Step (s : Server) : Server → Type 0 where
  fails :
      (e : GoError)
      → s.serve_call ≡ starting
      → Step s (record s { serve_call = refused (listen_error s.addr e) })
  listens :
      s.serve_call ≡ starting → s.is_stopped ≡ false → Step s (record s { serve_call = listening })
  refuses :
      (e : GoError)
      → s.serve_call ≡ starting
      → s.is_stopped ≡ true
      → Step s (record s { serve_call = refused e })
  breaks :
      (e : GoError) → s.serve_call ≡ listening → Step s (record s { serve_call = left (some e) })
  returns :
      s.serve_call ≡ listening → s.is_stopped ≡ true → Step s (record s { serve_call = left none })

abbrev pub graceful_stop : Server → Server
graceful_stop s = record s { is_stopped = true }

-- The server has listened, so that clients may have connected.
abbrev pub HasListened : ServeCall → Type 0
HasListened starting = ⊥
HasListened listening = Unit
HasListened (refused e) = ⊥
HasListened (left e) = Unit
