-- ===== src/Cli/Namespace/Events.antt =====
-- What happened in a trace of cmd/rca/nsrun_linux.go.
use remote_adapter.Prelude.{
  ◌≡◌, ◌∙◌, refl, ap, sym, List, [], ◌∷◌, ◌++◌, Bytes, map, append-nil, append_assoc,
}
use remote_adapter.Cli.Namespace.{NsTarget, NsEvent, made, mounted, unmounting, removing, started}

abbrev pub mounted_dir : NsEvent → List Bytes
mounted_dir (mounted d) = d ∷ []
mounted_dir e = []

abbrev pub unmounting_dir : NsEvent → List Bytes
unmounting_dir (unmounting d) = d ∷ []
unmounting_dir e = []

abbrev pub made_dir : NsEvent → List Bytes
made_dir (made d) = d ∷ []
made_dir e = []

abbrev pub removing_dir : NsEvent → List Bytes
removing_dir (removing d) = d ∷ []
removing_dir e = []

abbrev pub started_target : NsEvent → List NsTarget
started_target (started c) = c ∷ []
started_target e = []

-- What is picked of each event, in order.
unfoldable pub picked : {A : Type 0} → (NsEvent → List A) → List NsEvent → List A
picked f [] = []
picked f (e ∷ es) = f e ++ picked f es

pub picked-append :
    {A : Type 0} (f : NsEvent → List A) (xs ys : List NsEvent)
    → picked f (xs ++ ys) ≡ picked f xs ++ picked f ys
unfolding picked
picked-append f [] ys = refl
picked-append f (x ∷ xs) ys =
    ap (◌++◌ (f x)) (picked-append f xs ys) ∙ sym (append_assoc (f x) (picked f xs) (picked f ys))

pub picked-snoc :
    {A : Type 0} (f : NsEvent → List A) (xs : List NsEvent) (e : NsEvent)
    → picked f (xs ++ (e ∷ [])) ≡ picked f xs ++ f e
unfolding picked
picked-snoc f xs e = picked-append f xs (e ∷ []) ∙ ap (◌++◌ (picked f xs)) (append-nil (f e))

pub picked-map :
    {A : Type 0} (f : NsEvent → List A) (g : Bytes → NsEvent)
    → ((d : Bytes) → f (g d) ≡ [])
    → (ds : List Bytes) → picked f (map g ds) ≡ []
unfolding picked
picked-map f g h [] = refl
picked-map f g h (d ∷ ds) = rw (h d) (picked-map f g h ds)

pub picked-map_each :
    (f : NsEvent → List Bytes) (g : Bytes → NsEvent)
    → ((d : Bytes) → f (g d) ≡ d ∷ [])
    → (ds : List Bytes) → picked f (map g ds) ≡ ds
unfolding picked
picked-map_each f g h [] = refl
picked-map_each f g h (d ∷ ds) = rw (h d) (ap (◌∷◌ d) (picked-map_each f g h ds))
