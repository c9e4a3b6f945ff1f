-- ===== src/Executor/Fs/Reports.antt =====
-- What the answers say of the host: modes and types, reads at the end of a file, and attribute changes.
use remote_adapter.Prelude.{
  ℕ, zero, suc, ◌<◌, ◌≡◌, ◌∙◌, refl, Bool, true, false, ◌&&◌, not, Option, none, some, List, [],
  ◌∷◌, arith, ◌==◌, if◌then◌else◌, bit_and, bit_or,
}
use remote_adapter.Protocol.Types.{
  Request, Response, is_dir, set_mode, set_size, set_atime, set_mtime,
}
use remote_adapter.Executor.Host.{Host, GoError, Outcome, done, failed, FileInfo}
use remote_adapter.Executor.Fs.{
  Service, success, failure, file_mode, serve_stat, serve_setattr, change, changed, change_times,
  change_size, set_stamps, has_bit, perm_bits, set_stamps,
}

-- Every number below `k` passes the test.
passes_up_to : (ℕ → Bool) → ℕ → Bool
passes_up_to test zero = true
passes_up_to test (suc k) = passes_up_to test k && test k

passes_up_to-lookup :
    (test : ℕ → Bool) (k i : ℕ) → i < k → passes_up_to test k ≡ true → test i ≡ true
unfolding passes_up_to
passes_up_to-lookup test zero i below e = absurd (omega arith)
passes_up_to-lookup test (suc k) i below e = ground (arith, passes_up_to-lookup test k i)

mode_is_right : ℕ → Bool
mode_is_right p =
    bit_and (bit_or p 0o040000) 0o170000 == 0o040000
    && not (bit_and (bit_or p 0o100000) 0o170000 == 0o040000)
    && bit_and (bit_or p 0o040000) 0o777 == p
    && bit_and (bit_or p 0o100000) 0o777 == p

mode_table : passes_up_to mode_is_right 512 ≡ true
unfolding passes_up_to mode_is_right
mode_table = refl

-- A list of calls, one after the other up to the first that fails.
module _ {W : Type 0} where
  abbrev pub next_call : (W → Option GoError × W) → Outcome (Unit {0}) × W → Option GoError × W
  next_call later (failed e, w) = (some e, w)
  next_call later (done _, w) = later w

  abbrev pub attempt : List (W → Outcome (Unit {0}) × W) → W → Option GoError × W
  attempt [] w = (none, w)
  attempt (call ∷ calls) w = next_call (attempt calls) (call w)

  abbrev pub listed_if :
      Bool
      → (W → Outcome (Unit {0}) × W)
      → List (W → Outcome (Unit {0}) × W)
      → List (W → Outcome (Unit {0}) × W)
  listed_if b call calls = if b then call ∷ calls else calls

module _ (h : Host) (r : Request) where
  -- The mask has one of these bits.
  abbrev asks : ℕ → Bool
  asks bits = not (bit_and r.mask bits == 0)

  -- Bit 4 asks for the access time, bit 8 for the modification time; one that is not asked for is kept.
  abbrev time_changes : List (h.World → Outcome (Unit {0}) × h.World)
  time_changes =
      listed_if (asks 12)
        (h.chtimes r.path (if asks 4 then some r.atime else none)
          (if asks 8 then some r.mtime else none))
        []

  abbrev size_changes : List (h.World → Outcome (Unit {0}) × h.World)
  size_changes = listed_if (asks 2) (h.truncate r.path r.size) time_changes

  -- The changes that an `OpSetattr` asks for, in order.
  abbrev pub asked_changes : List (h.World → Outcome (Unit {0}) × h.World)
  asked_changes = listed_if (asks 1) (h.chmod r.path (bit_and r.mode 0o777)) size_changes

module _ {h : Host} where
  abbrev pub respond : Service h → Option GoError × h.World → Response × Service h
  respond s (none, w) = (success, record s { world = w })
  respond s (some e, w) = (failure e, record s { world = w })

  change-attempt :
      (b : Bool) (call : h.World → Outcome (Unit {0}) × h.World)
      (calls : List (h.World → Outcome (Unit {0}) × h.World))
      (rest : Service h → Response × Service h)
      → ((s : Service h) → rest s ≡ respond s (attempt calls s.world))
      → (s : Service h)
      → change b call rest s ≡ respond s (attempt (listed_if b call calls) s.world)
  change-attempt false call calls rest later s = later s
  change-attempt true call calls rest later s = go (call s.world)
    where
      go :
          (a : Outcome (Unit {0}) × h.World)
          → changed s rest a ≡ respond s (next_call (attempt calls) a)
      go (failed e, w) = refl
      go (done u, w) = later (record s { world = w }) ∙ again (attempt calls w)
        where
          again : (a : Option GoError × h.World) → respond (record s { world = w }) a ≡ respond s a
          again (none, w') = refl
          again (some e, w') = refl

  -- `OpSetattr` makes exactly the changes of its mask, the permission bits (1) before the size (2) before
  -- the access time (4) and the modification time (8), and stops at the first that fails, whose error number
  -- it answers.
  pub serve_setattr-attempt :
      (r : Request) (s : Service h)
      → serve_setattr r s ≡ respond s (attempt (asked_changes h r) s.world)
  unfolding serve_setattr
  serve_setattr-attempt r s =
      change-attempt (has_bit r.mask set_mode) (h.chmod r.path (perm_bits r.mode))
        (size_changes h r) (change_size r) sized s
    where
      timed : (t : Service h) → change_times r t ≡ respond t (attempt (time_changes h r) t.world)
      timed =
          change-attempt (has_bit r.mask (bit_or set_atime set_mtime)) (set_stamps h r) []
            (λ t. (success, t)) (λ t. refl)

      sized : (t : Service h) → change_size r t ≡ respond t (attempt (size_changes h r) t.world)
      sized =
          change-attempt (has_bit r.mask set_size) (h.truncate r.path r.size) (time_changes h r)
            (change_times r) timed

  -- Where the host's stat succeeds with permission bits below 512, `OpStat` reports a directory
  -- exactly where the host found one, with the permission bits, the size and the time that the host
  -- gave, and changes no handle.
  pub serve_stat_reports :
      (r : Request) (s : Service h) {fi : FileInfo} {w : h.World}
      → fi.perm < 512
      → h.stat r.path s.world ≡ (done fi, w)
      → let (a, t) = serve_stat r s in
        (is_dir a ≡ fi.dir)
        × (bit_and a.mode 0o777 ≡ fi.perm)
        × (a.size ≡ fi.size)
        × (a.mtime ≡ fi.mtime)
        × (t ≡ record s { world = w })
  unfolding serve_stat is_dir file_mode mode_is_right
  serve_stat_reports r s {fi} p e =
      let right = passes_up_to-lookup mode_is_right 512 fi.perm p mode_table in
      rw e (ground (arith, right))
