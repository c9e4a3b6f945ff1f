-- ===== src/Cli/RunArgs/Laws.antt =====
-- What a command line that is accepted has, and what is left to the command.
use remote_adapter.Prelude.{
  ◌≡◌, ◌⊎◌, ◌∙◌, refl, ap, sym, inl, inr, Bool, true, false, not, ◌&&◌, List, [], ◌∷◌, ◌++◌, Bytes,
  All, append_assoc, append-nil, Bool-cases, subst, ==_iff, ◌==◌,
}
use remote_adapter.Prelude.FilePath.{is_empty}
use remote_adapter.Cli.RunArgs.{
  RunOpts, Parsed, parsed, refused, word, foreign, token_of, add_word, scan, transports, validated,
  default_opts, parse_run_args,
}

-- A token that rca leaves alone: neither "--" nor a flag of its own.
abbrev pub IsLeft : Bytes → Type 0
IsLeft tok = (token_of tok ≡ word) ⊎ (token_of tok ≡ foreign)

scan-left :
    (tok : Bytes) (rest : List Bytes) (o : RunOpts)
    → is_empty o.command ≡ false
    → IsLeft tok
    → scan (tok ∷ rest) o ≡ scan rest (record o { args = o.args ++ (tok ∷ []) })
unfolding scan
scan-left tok [] o c (inl e) = rw e (rw (c, add_word))
scan-left tok [] o c (inr e) = rw e (rw c)
scan-left tok (v ∷ rest) o c (inl e) = rw e (rw (c, add_word))
scan-left tok (v ∷ rest) o c (inr e) = rw e (rw c)

-- Once there is a command, the tokens that are not rca's own go to it as they are, in order.
pub scan_leaves :
    (args : List Bytes) (o : RunOpts)
    → is_empty o.command ≡ false
    → All IsLeft args
    → scan args o ≡ parsed (record o { args = o.args ++ args })
scan_leaves [] o c h =
    unfold scan in ap (λ a. parsed (record o { args = a })) (sym (append-nil o.args))
scan_leaves (tok ∷ args) o c h =
    scan-left tok args o c h.0
    ∙ scan_leaves args (record o { args = o.args ++ (tok ∷ []) }) c h.1
    ∙ ap (λ a. parsed (record o { args = a })) (append_assoc o.args (tok ∷ []) args)

-- Exactly one transport, and a command unless only the file service is to be run.
abbrev pub IsComplete : RunOpts → Type 0
IsComplete o = (transports o ≡ 1) × ((is_empty o.command ≡ false) ⊎ (o.serve_fs_only ≡ true))

given_command : (a b : Bool) → (a && not b) ≡ false → (a ≡ false) ⊎ (b ≡ true)
given_command false b e = inl refl
given_command true true e = inr refl
given_command true false e = cc

same : {q o : RunOpts} → parsed q ≡ parsed o → q ≡ o
same e = cc

validated-IsComplete : (p : Parsed RunOpts) (o : RunOpts) → validated p ≡ parsed o → IsComplete o
validated-IsComplete (refused e) o h = cc
validated-IsComplete (parsed q) o h =
    elim (Bool-cases (is_empty q.command && not q.serve_fs_only)) [
      | inl missing ↦ cc (rw missing at h)
      | inr given ↦ elim (Bool-cases (transports q == 1)) [
        | inl one ↦ subst IsComplete (same (rw (given, one) at h)) (
          (==_iff (transports q) 1).0 one,
          given_command (is_empty q.command) q.serve_fs_only given,
        )
        | inr other ↦ cc (rw (given, other) at h)
      ]
    ]

-- A command line that is accepted names exactly one transport, and a command unless only the file
-- service is to be run.
pub parse_run_args-IsComplete :
    (darwin : Bool) (default_sock : Bytes) (args : List Bytes) (o : RunOpts)
    → parse_run_args darwin default_sock args ≡ parsed o
    → IsComplete o
unfolding parse_run_args
parse_run_args-IsComplete darwin default_sock args o h =
    validated-IsComplete (scan args (default_opts darwin default_sock)) o h
