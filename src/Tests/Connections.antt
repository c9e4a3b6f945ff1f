-- ===== src/Tests/Connections.antt =====
-- Runs of connections that are served at the same time.
use remote_adapter.Prelude.{
  ℕ, ◌==◌, sym, ap, ◌∙◌, Bool-cases, if◌then◌else◌, ◌≤◌, subst, ◌≡◌, refl, true, none, some, [],
  ◌∷◌, Bytes, codes, arith, inl, inr,
}
use remote_adapter.Prelude.Entries.{some_inj, differ}
use remote_adapter.Prelude.Table.{lookup, insert, delete}
use remote_adapter.Protocol.Types.{op_pread, op_stat, Request, blank_request}
use remote_adapter.Routing.{Table, remote_allowlist}
use remote_adapter.Adapter.Session.{Session, new_session, handle, on_side, close}
use remote_adapter.Adapter.Session.Handles.{IsValid}
use remote_adapter.Executor.Fs.{new_service, serve}
use remote_adapter.Executor.Serve as Streams
use remote_adapter.Executor.Serve.{elsewhere, on_host}
use remote_adapter.Executor.Serve.Apart.{own, IsFresh, Projects, Steps-Projects}
use remote_adapter.Adapter.Conn.{serve_conn}
use remote_adapter.Adapter.Conn.Rounds.{Ends, serve_conn-ends}
use remote_adapter.Adapter.Serve.{Running, at_start, accepted, finds, accept, stay, go}
use remote_adapter.Adapter.Serve.Valid.{IsServing, Steps-IsValid}
use remote_adapter.Adapter.Serve.Isolation as Isolated
use remote_adapter.Adapter.Serve.Isolation.{Alone, Steps-keeps_handle}
use remote_adapter.Tests.Stubs.{stub_host, stub_link}

abbrev routes : Table
routes = record { mode = remote_allowlist; remote_prefixes = codes "/w" ∷ []; local_prefixes = [] }

abbrev holder : Session stub_host stub_link
holder = record {
  local = record { next = 1; files = []; world = 0 };
  handles = (1, record { remote = true; real = 7 }) ∷ [];
  next = 2;
  connected = true;
  link = 0;
}

-- Connection 0 holds the executor's handle 7 under its handle 1.
abbrev one_open : Running stub_host stub_link
one_open = record { next = 1; sessions = (0, holder) ∷ [] }

holder-IsValid : IsValid holder
holder-IsValid = record { started = omega arith; below = (omega arith, omega arith, tt) }

only_holder :
    (i : ℕ) (s : Session stub_host stub_link) → lookup i one_open.sessions ≡ some s → holder ≡ s
unfolding lookup
only_holder i s e = elim (Bool-cases (0 == i)) [
  | inl same ↦ some_inj holder s (sym (ap (λ b. if b then some holder else none) same) ∙ e)
  | inr other ↦ cc (sym e ∙ ap (λ b. if b then some holder else none) other)
]

none_later : (i : ℕ) → 1 ≤ i → lookup i one_open.sessions ≡ none
unfolding lookup
none_later i le = ap (λ b. if b then some holder else none) (differ 0 i (λ e. omega arith))

one_open-IsServing : IsServing 2 one_open
one_open-IsServing = record {
  fresh = none_later;
  valid = λ i s e.
      subst (λ x. IsValid x × (x.next ≤ 2)) (only_holder i s e) (holder-IsValid, omega arith);
}

abbrev read_one : Request
read_one = record (blank_request op_pread) { handle = 1; len = 4 }

-- Another connection is accepted in between; the file is the executor's handle 7 as before.
Steps-keeps_handle_example :
    (s : Session stub_host stub_link) × (lookup 0
        (insert 1 (new_session {h = stub_host} {k = stub_link} 5 6) one_open.sessions)
      ≡ some s)
    × Alone routes holder [] s
    × (handle routes read_one (finds 8 9 s)
        ≡ on_side true (record read_one { handle = 7 }) (finds 8 9 s))
unfolding lookup Isolated.own
Steps-keeps_handle_example =
    Steps-keeps_handle routes 2 one_open
      (record {
        next = 2;
        sessions = insert 1 (new_session {h = stub_host} {k = stub_link} 5 6) one_open.sessions;
      })
      (accepted 1 ∷ []) 0 1 (record { remote = true; real = 7 }) holder read_one 8 9
      (go stay (accept one_open 5 6)) (omega arith) one_open-IsServing (tt, tt) refl refl (inl refl)
      refl

serve_conn-ends_example :
    (out : Bytes) × (s : Session stub_host stub_link) × (serve_conn routes (codes "abc") 0 0
      ≡ some (out, close s))
    × Ends routes (codes "abc") (new_session 0 0) out s
serve_conn-ends_example = serve_conn-ends {h = stub_host} {k = stub_link} routes (codes "abc") 0 0

Steps-IsValid_example :
    IsValid (new_session {h = stub_host} {k = stub_link} 5 6)
    × ((new_session {h = stub_host} {k = stub_link} 5 6).next ≤ 2)
unfolding insert delete lookup
Steps-IsValid_example =
    Steps-IsValid routes (accepted 0 ∷ [])
      (record {
        next = 1;
        sessions = insert 0 (new_session {h = stub_host} {k = stub_link} 5 6) [];
      })
      0 (new_session 5 6) (go stay (accept at_start 5 6)) (omega arith) refl

abbrev no_stream : Streams.Running stub_host
no_stream = Streams.at_start 3

abbrev one_stream : Streams.Running stub_host
one_stream = record { next = 1; services = insert 0 (new_service {h = stub_host} 3) []; world = 3 }

no_stream-IsFresh : IsFresh no_stream
unfolding lookup
no_stream-IsFresh i le = refl

abbrev stat_b : Request
stat_b = record (blank_request op_stat) { path = codes "b" }

-- A second stream is accepted.
abbrev two_streams : Streams.Running stub_host
two_streams = record {
  next = 2;
  services = insert 1 (new_service {h = stub_host} 3) one_stream.services;
  world = 3;
}

-- It asks for a status.
abbrev second_asked : Streams.Running stub_host
second_asked = record {
  next = 2;
  services =
      insert 1 (serve stat_b (on_host {h = stub_host} 3 (new_service 3))).1 two_streams.services;
  world = (serve stat_b (on_host {h = stub_host} 3 (new_service 3))).1.world;
}

-- Then the host is used elsewhere.
Steps-Projects_example :
    Projects {h = stub_host} 0
      (record { next = 1; files = []; world = 3 })
      []
      (record second_asked { world = 9 })
unfolding own lookup insert delete
Steps-Projects_example =
    Steps-Projects 0 no_stream one_stream (record second_asked { world = 9 })
      (elsewhere ∷ Streams.asked 1 stat_b ∷ Streams.accepted 1 ∷ []) no_stream-IsFresh
      (Streams.accept no_stream)
      (Streams.go
        (Streams.go (Streams.go Streams.stay (Streams.accept one_stream))
          (Streams.answer two_streams 1 stat_b (new_service 3) refl))
        (Streams.change second_asked 9))
      (tt, (tt, (tt, tt)))
