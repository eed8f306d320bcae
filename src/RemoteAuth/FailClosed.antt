-- ===== src/RemoteAuth/FailClosed.antt =====
-- src/remote_auth.c: what `remote_auth_load` and `remote_auth_allowed` promise the HTTP server.
use mega65_expansion_board_i.Base.{
  ℕ, ◌+◌, ◌≡◌, ◌≢◌, ◌↔◌, ◌⊎◌, inl, inr, refl, ap, ◌∙◌, true, false, not, ◌||◌, Option, none, some,
  List, [], ◌∷◌, ◌==◌, ltb, length, arith, Bool-cases, Option-cases, and_true, ==_iff,
}
use mega65_expansion_board_i.Storage.{Storage}
use mega65_expansion_board_i.RemoteAuth.Address.{and32}
use mega65_expansion_board_i.RemoteAuth.Rules.{Rule}
use mega65_expansion_board_i.RemoteAuth.Globals.{AuthConfig, remote_auth_reset}
use mega65_expansion_board_i.RemoteAuth.Load.{
  LoadError, loaded, strip_comment, parse_line, parse_lines, parse_text, load_file, load_either,
  remote_auth_load, max_bytes,
}
use mega65_expansion_board_i.RemoteAuth.Allowed.{Perm, grants, first_match, remote_auth_allowed}

-- The first rule whose range holds an address.
pub data First : List Rule → ℕ → Rule → Type 0 where
  here :
      {r : Rule} {rules : List Rule} {ip : ℕ} → and32 ip r.mask ≡ r.network → First (r ∷ rules) ip r
  there :
      {q r : Rule} {rules : List Rule} {ip : ℕ}
      → and32 ip q.mask ≢ q.network
      → First rules ip r
      → First (q ∷ rules) ip r

matching : (a b : ℕ) → a ≡ b → not (a == b) ≡ false
matching a b h = ground arith

missing : (a b : ℕ) → a ≢ b → not (a == b) ≡ true
missing a b h = ground arith

first_match-First :
    (rules : List Rule) (ip : ℕ) (perm : Perm)
    → first_match rules ip perm ≡ true
    → (r : Rule) × First rules ip r × (grants perm r ≡ true)
unfolding first_match
first_match-First [] ip perm h = let no : false ≡ true = h in cc
first_match-First (q ∷ rules) ip perm h = elim (Bool-cases (and32 ip q.mask == q.network)) [
  | inl yes' ↦ (q, here ((==_iff (and32 ip q.mask) q.network).0 yes'), simp yes' at h)
  | inr no' ↦
      let (r, first, ok) = first_match-First rules ip perm (simp no' at h) in
      (r, there (λ e. let yes' = (==_iff (and32 ip q.mask) q.network).1 e in cc) first, ok)
]

First-first_match :
    {rules : List Rule} {ip : ℕ} (perm : Perm) {r : Rule}
    → First rules ip r
    → first_match rules ip perm ≡ grants perm r
unfolding first_match
First-first_match perm (here {r} {rules} {ip} h) =
    simp (matching (and32 ip r.mask) r.network h) refl
First-first_match perm (there {q} {r} {rules} {ip} h f) =
    simp (missing (and32 ip q.mask) q.network h) (First-first_match perm f)

-- An address may do something exactly if the configuration is present, and the first rule whose
-- range holds the address grants it. Later rules do not count.
pub remote_auth_allowed-First :
    (cfg : AuthConfig) (ip : ℕ) (perm : Perm)
    → (remote_auth_allowed cfg ip perm ≡ true)
      ↔ ((cfg.present ≡ true) × ((r : Rule) × First cfg.rules ip r × (grants perm r ≡ true)))
unfolding remote_auth_allowed
remote_auth_allowed-First cfg ip perm = (
  λ h.
      let (present, match') = and_true cfg.present (first_match cfg.rules ip perm) h in
      (present, first_match-First cfg.rules ip perm match'),
  λ h. let (present, (r, first, ok)) = h in simp present (First-first_match perm first ∙ ok),
)

-- loaded, or everything is as after a reset
abbrev LoadedOrReset : LoadError × AuthConfig → Type 0
LoadedOrReset o = (o.0 ≡ loaded) ⊎ (o.1 ≡ remote_auth_reset)

parse_lines-LoadedOrReset :
    (n : ℕ) (cfg : AuthConfig) (lines : List (List ℕ)) → LoadedOrReset (parse_lines n cfg lines)
unfolding parse_lines
parse_lines-LoadedOrReset n cfg [] = elim (Bool-cases (length cfg.rules == 0)) [
  | inl none' ↦ simp none' (inr refl)
  | inr some' ↦ simp some' (inl refl)
]
parse_lines-LoadedOrReset n cfg (line ∷ lines) =
    elim (Option-cases (parse_line cfg (strip_comment line))) [
      | inl bad ↦ simp (parse_lines, bad) (inr refl)
      | inr (cfg', good) ↦ simp (parse_lines, good) (parse_lines-LoadedOrReset (n + 1) cfg' lines)
    ]

reset_denies : (ip : ℕ) (perm : Perm) → remote_auth_allowed remote_auth_reset ip perm ≡ false
unfolding remote_auth_allowed remote_auth_reset
reset_denies ip perm = refl

module _ (st : Storage) where
  load_file-LoadedOrReset :
      (f : st.File) (disk : st.Disk)
      → LoadedOrReset ((load_file st f disk).0, (load_file st f disk).1)
  unfolding load_file parse_text
  load_file-LoadedOrReset f disk =
      let size = st.storage_size f disk in
      let (ok, bytes, _) = st.storage_read f size disk in
      elim (Bool-cases (ltb max_bytes size)) [
        | inl large ↦ simp large (inr refl)
        | inr fits ↦ elim (Bool-cases (not ok || not (length bytes == size))) [
          | inl bad ↦ simp (fits, bad) (inr refl)
          | inr good ↦ simp (fits, good) (parse_lines-LoadedOrReset _ _ _)
        ]
      ]

  load_either-LoadedOrReset :
      (file : Option st.File) (disk : st.Disk) (legacy : Option st.File) (disk' : st.Disk)
      → LoadedOrReset
          ((load_either st file disk legacy disk').0, (load_either st file disk legacy disk').1)
  unfolding load_either
  load_either-LoadedOrReset (some f) disk legacy disk' = load_file-LoadedOrReset f disk
  load_either-LoadedOrReset none disk (some f) disk' = load_file-LoadedOrReset f disk'
  load_either-LoadedOrReset none disk none disk' = inr refl

  remote_auth_load-LoadedOrReset :
      (disk : st.Disk) → LoadedOrReset ((remote_auth_load st disk).0, (remote_auth_load st disk).1)
  unfolding remote_auth_load
  remote_auth_load-LoadedOrReset disk = load_either-LoadedOrReset _ _ _ _

  -- If the load does not succeed, whatever stopped it, nobody may do anything.
  pub remote_auth_load_denies :
      (disk : st.Disk) (ip : ℕ) (perm : Perm)
      → (remote_auth_load st disk).0 ≢ loaded
      → remote_auth_allowed (remote_auth_load st disk).1 ip perm ≡ false
  remote_auth_load_denies disk ip perm bad = elim (remote_auth_load-LoadedOrReset disk) [
    | inl fine ↦ absurd (bad fine)
    | inr reset ↦ ap (λ c. remote_auth_allowed c ip perm) reset ∙ reset_denies ip perm
  ]
