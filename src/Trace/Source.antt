-- ===== src/Trace/Source.antt =====
-- packages/search/src/normalize-source.ts. `lower` is `String.prototype.toLowerCase`.
use wtfoc.Prelude.{Option, none, some, ◌≡◌, refl}
use wtfoc.Prelude.Text.{Text, units, strip_prefix, strip_suffix}

-- What follows `^(?:https?:\/\/)?github\.com\/`, in any case.
abbrev pub after_github : Text → Option Text
after_github s = elim (strip_prefix (units "https://github.com/") s) [
  | some rest ↦ some rest
  | none ↦ elim (strip_prefix (units "http://github.com/") s) [
    | some rest ↦ some rest
    | none ↦ strip_prefix (units "github.com/") s
  ]
]

abbrev or_same : Option Text → Text → Text
or_same none s = s
or_same (some t) s = t

-- The prefix and, only behind it, a trailing `.git` are taken off.
abbrev strip_url : Option Text → Text → Text
strip_url none s = s
strip_url (some rest) s = or_same (strip_suffix (units ".git") rest) rest

unfoldable pub normalize_repo_source : (Text → Text) → Text → Text
unfolding strip_prefix strip_suffix
normalize_repo_source lower source =
    let s = lower (strip_url (after_github source) source) in
    or_same (strip_prefix (units "./") s) s

clone_url :
    normalize_repo_source (λ s. s) (units "https://GitHub.com/owner/repo.git") ≡ units "owner/repo"
unfolding normalize_repo_source
clone_url = refl

bare_git :
    normalize_repo_source (λ s. s) (units "./scripts/deploy.git") ≡ units "scripts/deploy.git"
unfolding normalize_repo_source
bare_git = refl
