-- ===== src/Tests/Stubs.antt =====
-- A small host and a small link, for the runs. The host counts its calls; a file is its path, and the
-- empty path is not there.
use remote_adapter.Prelude.{
  ℕ, suc, true, false, none, some, [], ◌∷◌, Bytes, length, codes, equal, if◌then◌else◌,
}
use remote_adapter.Prelude.Int.{pos}
use remote_adapter.Protocol.Types.{errno_response}
use remote_adapter.Executor.Host.{Host, GoError, Outcome, done, failed, FileInfo}
use remote_adapter.Adapter.Link.{Link}

abbrev pub absent : GoError
absent = record { errno = some 2; not_exist = true; permission = false; is_eof = false }

abbrev pub plain : FileInfo
plain = record { perm = 0o644; dir = false; size = pos 3; mtime = pos 17 }

abbrev found {ℓ} : {A : Type ℓ} → Bytes → A → Outcome A
found [] a = failed absent
found (c ∷ p) a = done a

-- A file under the path "x" opens and cannot be looked at.
unfoldable pub seen : Bytes → Outcome FileInfo
seen p = if equal p (codes "x") then failed absent else done plain

abbrev pub stub_host : Host
stub_host = record {
  World = ℕ;
  File = Bytes;
  o_create = 64;
  goos = codes "linux";
  goarch = codes "amd64";
  stat = λ p w. (found p plain, suc w);
  open_file = λ p flags perm w. (found p p, suc w);
  file_stat = λ f w. (seen f, suc w);
  file_close = λ f w. (done tt, suc w);
  read_at = λ f n off w. ((f, none), suc w);
  write_at = λ f b off w. (done (length b), suc w);
  write_file = λ p b perm w. (found p tt, suc w);
  read_dir = λ p w. (found p [], suc w);
  unlink = λ p w. (found p tt, suc w);
  rmdir = λ p w. (found p tt, suc w);
  mkdir = λ p perm w. (found p tt, suc w);
  rename = λ p q w. (found p tt, suc w);
  chmod = λ p perm w. (found p tt, suc w);
  truncate = λ p n w. (found p tt, suc w);
  chtimes = λ p a m w. (found p tt, suc w);
}

-- An executor that answers every request with success and handle 7; the state counts what was sent.
abbrev pub stub_link : Link
stub_link = record {
  State = ℕ;
  dial = λ l. (true, l);
  write_kind = λ l. (true, l);
  shut = λ l. l;
  send = λ r l. (true, suc l);
  receive = λ o l. (some (record (errno_response (pos 0)) { handle = 7 }), l);
}
