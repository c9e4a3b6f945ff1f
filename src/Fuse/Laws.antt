-- ===== src/Fuse/Laws.antt =====
-- What the nodes send, and what they show.
use remote_adapter.Prelude.{
  ℕ, zero, suc, ◌≡◌, refl, Option, none, some, List, [], ◌∷◌, Bytes, map, bit_or, is_some, ap, not,
  ◌||◌, ◌==◌, if◌then◌else◌, Bool-cases, inl, inr,
}
use remote_adapter.Prelude.Int.{ℤ, pos, negsuc}
use remote_adapter.Protocol.Types.{
  op_setattr, Request, Response, blank_request, is_dir, set_mode, set_size, set_atime, set_mtime,
}
use remote_adapter.Protocol.Responses.Shape.{pad}
use remote_adapter.Executor.Fs.{has_bit}
use remote_adapter.Fuse.Attr.{
  Attr, fill_attr, with_mtime, stable_attr, s_ifdir, s_ifreg, dirent_mode,
}
use remote_adapter.Fuse.Nodes.{
  dir_node, file_node, SetAttrIn, entry_of, ask_mode, ask_size, ask_atime, ask_mtime,
  setattr_request, dir_entries,
}

-- The mask of a request has a bit for each change that is asked for, and no other.
pub record Asks (r : Request) (m n : Option ℕ) (a t : Option ℤ) : Type 0 where
  pub for_mode : has_bit r.mask set_mode ≡ is_some m
  pub for_size : has_bit r.mask set_size ≡ is_some n
  pub for_atime : has_bit r.mask set_atime ≡ is_some a
  pub for_mtime : has_bit r.mask set_mtime ≡ is_some t
  pub for_times : has_bit r.mask (bit_or set_atime set_mtime) ≡ (is_some a || is_some t)
  pub for_any : not (r.mask == 0) ≡ (is_some m || (is_some n || (is_some a || is_some t)))

blank : Bytes → Request
blank path = record (blank_request op_setattr) { path = path }

asked :
    (path : Bytes) (m n : Option ℕ) (a t : Option ℤ)
    → Asks (ask_mtime t (ask_atime a (ask_size n (ask_mode m (blank path))))) m n a t
unfolding blank
asked path none none none none = record {
  for_mode = refl;
  for_size = refl;
  for_atime = refl;
  for_mtime = refl;
  for_times = refl;
  for_any = refl;
}
asked path none none none (some t) = record {
  for_mode = refl;
  for_size = refl;
  for_atime = refl;
  for_mtime = refl;
  for_times = refl;
  for_any = refl;
}
asked path none none (some a) none = record {
  for_mode = refl;
  for_size = refl;
  for_atime = refl;
  for_mtime = refl;
  for_times = refl;
  for_any = refl;
}
asked path none none (some a) (some t) = record {
  for_mode = refl;
  for_size = refl;
  for_atime = refl;
  for_mtime = refl;
  for_times = refl;
  for_any = refl;
}
asked path none (some n) none none = record {
  for_mode = refl;
  for_size = refl;
  for_atime = refl;
  for_mtime = refl;
  for_times = refl;
  for_any = refl;
}
asked path none (some n) none (some t) = record {
  for_mode = refl;
  for_size = refl;
  for_atime = refl;
  for_mtime = refl;
  for_times = refl;
  for_any = refl;
}
asked path none (some n) (some a) none = record {
  for_mode = refl;
  for_size = refl;
  for_atime = refl;
  for_mtime = refl;
  for_times = refl;
  for_any = refl;
}
asked path none (some n) (some a) (some t) = record {
  for_mode = refl;
  for_size = refl;
  for_atime = refl;
  for_mtime = refl;
  for_times = refl;
  for_any = refl;
}
asked path (some m) none none none = record {
  for_mode = refl;
  for_size = refl;
  for_atime = refl;
  for_mtime = refl;
  for_times = refl;
  for_any = refl;
}
asked path (some m) none none (some t) = record {
  for_mode = refl;
  for_size = refl;
  for_atime = refl;
  for_mtime = refl;
  for_times = refl;
  for_any = refl;
}
asked path (some m) none (some a) none = record {
  for_mode = refl;
  for_size = refl;
  for_atime = refl;
  for_mtime = refl;
  for_times = refl;
  for_any = refl;
}
asked path (some m) none (some a) (some t) = record {
  for_mode = refl;
  for_size = refl;
  for_atime = refl;
  for_mtime = refl;
  for_times = refl;
  for_any = refl;
}
asked path (some m) (some n) none none = record {
  for_mode = refl;
  for_size = refl;
  for_atime = refl;
  for_mtime = refl;
  for_times = refl;
  for_any = refl;
}
asked path (some m) (some n) none (some t) = record {
  for_mode = refl;
  for_size = refl;
  for_atime = refl;
  for_mtime = refl;
  for_times = refl;
  for_any = refl;
}
asked path (some m) (some n) (some a) none = record {
  for_mode = refl;
  for_size = refl;
  for_atime = refl;
  for_mtime = refl;
  for_times = refl;
  for_any = refl;
}
asked path (some m) (some n) (some a) (some t) = record {
  for_mode = refl;
  for_size = refl;
  for_atime = refl;
  for_mtime = refl;
  for_times = refl;
  for_any = refl;
}

-- The request that the mount sends for a change of attributes asks for exactly the changes that the
-- kernel asked for, in the bits that the executor reads; where there are none, the mask is 0.
pub setattr_request-Asks :
    (path : Bytes) (i : SetAttrIn) → Asks (setattr_request path i) i.mode i.size i.atime i.mtime
unfolding setattr_request blank
setattr_request-Asks path i = asked path i.mode i.size i.atime i.mtime

-- A directory is listed under the names of the answer, in order, each with the mode of its type; a name
-- that has no type is listed as of type 0.
pub dir_entries-pad :
    (ns : List Bytes) (ts : List ℕ)
    → (map (λ e. e.name) (dir_entries ns ts) ≡ ns)
      × (map (λ e. e.mode) (dir_entries ns ts) ≡ map dirent_mode (pad ns ts))
unfolding dir_entries pad
dir_entries-pad [] ts = (refl, refl)
dir_entries-pad (n ∷ ns) [] =
    let (p, q) = dir_entries-pad ns [] in (ap (◌∷◌ n) p, ap (◌∷◌ (dirent_mode 0)) q)
dir_entries-pad (n ∷ ns) (t ∷ ts) =
    let (p, q) = dir_entries-pad ns ts in (ap (◌∷◌ n) p, ap (◌∷◌ (dirent_mode t)) q)

with_mtime-mode : (a : Attr) (t : ℤ) → (with_mtime a t).mode ≡ a.mode
with_mtime-mode a (pos zero) = refl
with_mtime-mode a (pos (suc n)) = refl
with_mtime-mode a (negsuc n) = refl

fill_attr-mode : (out : Attr) (a : Response) → (fill_attr out a).mode ≡ a.mode
unfolding fill_attr
fill_attr-mode out a = with_mtime-mode _ a.mtime

-- A node is a directory exactly where the answer says so, its attributes carry the mode of the answer,
-- and the type in its identity agrees with the node.
pub entry_of-node :
    (path : Bytes) (out : Attr) (a : Response)
    → ((entry_of path out a).node ≡ (if is_dir a then dir_node path else file_node path))
      × ((entry_of path out a).attr.mode ≡ a.mode)
      × ((entry_of path out a).stable.mode ≡ (if is_dir a then s_ifdir else s_ifreg))
unfolding entry_of stable_attr
entry_of-node path out a = elim (Bool-cases (is_dir a)) [
  | inl d ↦ rw d (refl, fill_attr-mode out a, refl)
  | inr f ↦ rw f (refl, fill_attr-mode out a, refl)
]
