-- ===== src/Server/GitRefs/Slugs.antt =====
-- The slug of a repository: what an accepted one looks like.
use grns.Base.{
  ℕ, ◌≡◌, refl, Bool, true, false, not, ◌&&◌, List, [], ◌∷◌, ◌++◌, Option, ◌==◌, nat_eq, arith, all,
  any, is_empty,
}
use grns.Base.Text.{Text, text_eq, codes, trim_space, to_lower, lower_rune, split}
use grns.Base.Text.Laws.{lower_rune_idem}
use grns.Errors.{ok, IfOk}
use grns.Errors.Laws.{IfOk-apply, IfOk-after, IfOk-refuse}
use grns.Server.GitRefs.{
  is_bad_part, join_parts, trim_slashes, trim_slashes_left, trim_slashes_right, trim_suffix,
  slug_text, repo_location, canonical_git_repo_slug,
}

-- In lower case.
abbrev pub is_lowered : ℕ → Bool
is_lowered c = lower_rune c == c

-- In lower case and no slash.
abbrev pub is_slug_rune : ℕ → Bool
is_slug_rune c = is_lowered c && not (c == b'/')

to_lower-is_lowered : (s : Text) → all is_lowered (to_lower s) ≡ true
unfolding to_lower
to_lower-is_lowered [] = refl
to_lower-is_lowered (c ∷ s) = ground (arith, lower_rune_idem c, to_lower-is_lowered s)

module _ (p : ℕ → Bool) where
  trim_suffix-all : (s suffix : Text) → all p s ≡ true → all p (trim_suffix s suffix) ≡ true
  unfolding trim_suffix
  trim_suffix-all [] suffix h = refl
  trim_suffix-all (c ∷ s) suffix h = ground (arith, trim_suffix-all s suffix)

  trim_slashes_left-all : (s : Text) → all p s ≡ true → all p (trim_slashes_left s) ≡ true
  unfolding trim_slashes_left
  trim_slashes_left-all [] h = refl
  trim_slashes_left-all (c ∷ s) h = ground (arith, trim_slashes_left-all s)

  trim_slashes_right-all : (s : Text) → all p s ≡ true → all p (trim_slashes_right s) ≡ true
  unfolding trim_slashes_right
  trim_slashes_right-all [] h = refl
  trim_slashes_right-all (c ∷ s) h = ground (arith, trim_slashes_right-all s)

slug_text-is_lowered : (value : Text) → all is_lowered (slug_text value) ≡ true
unfolding trim_slashes
slug_text-is_lowered value =
    let lowered = to_lower (trim_space value) in
    let trimmed = trim_suffix lowered (codes ".git") in
    trim_slashes_right-all is_lowered (trim_slashes_left trimmed) (
      trim_slashes_left-all is_lowered trimmed (
        trim_suffix-all is_lowered lowered (codes ".git") (to_lower-is_lowered (trim_space value))))

split-is_slug_rune :
    (s : Text)
    → all is_lowered s ≡ true
    → (all is_slug_rune (split b'/' s).0 ≡ true) × (all (all is_slug_rune) (split b'/' s).1 ≡ true)
unfolding split
split-is_slug_rune [] h = (refl, refl)
split-is_slug_rune (c ∷ s) h = ground (arith, split-is_slug_rune s)

-- Not empty nor white space only, with no blank, no slash and no upper case.
unfoldable pub IsSlugPart : Text → Type 0
IsSlugPart part = (is_bad_part part ≡ false) × (all is_slug_rune part ≡ true)

-- Three such parts, joined by slashes.
unfoldable pub IsSlug : Text → Type 0
IsSlug slug =
    (host : Text) × (owner : Text) × (name : Text) × (slug ≡ host ++ b'/' ∷ owner ++ b'/' ∷ name)
    × IsSlugPart host
    × IsSlugPart owner
    × IsSlugPart name

join_parts-IsSlug :
    (parts : Text × List Text)
    → all is_slug_rune parts.0 ≡ true
    → all (all is_slug_rune) parts.1 ≡ true
    → IfOk IsSlug (join_parts parts)
unfolding join_parts IsSlug IsSlugPart
join_parts-IsSlug (host, []) h k = tt
join_parts-IsSlug (host, owner ∷ []) h k = tt
join_parts-IsSlug (host, owner ∷ name ∷ []) h k =
    IfOk-refuse IsSlug (any is_bad_part (host ∷ owner ∷ name ∷ [])) _ _ λ good. (
      host,
      owner,
      name,
      refl,
      (ground arith, h),
      (ground arith, ground arith),
      (ground arith, ground arith),
    )
join_parts-IsSlug (host, owner ∷ name ∷ more ∷ parts) h k = tt

canonical_git_repo_slug-IfOk :
    (parse_url : Text → Option (Text × Text)) (raw : Text)
    → IfOk IsSlug (canonical_git_repo_slug parse_url raw)
unfolding canonical_git_repo_slug
canonical_git_repo_slug-IfOk parse_url raw = IfOk-refuse IsSlug (is_empty (trim_space raw)) _ _ λ _.
    IfOk-after IsSlug (repo_location parse_url (trim_space raw)) _ λ value.
      let parts = split-is_slug_rune (slug_text value) (slug_text-is_lowered value) in
      join_parts-IsSlug (split b'/' (slug_text value)) parts.0 parts.1

-- Whatever url.Parse answers, a repository that is accepted has a slug of exactly three parts
-- joined by slashes, each not empty, in lower case, without blanks and slashes.
pub canonical_git_repo_slug-IsSlug :
    (parse_url : Text → Option (Text × Text)) (raw slug : Text)
    → canonical_git_repo_slug parse_url raw ≡ ok slug
    → IsSlug slug
canonical_git_repo_slug-IsSlug parse_url raw slug e =
    IfOk-apply IsSlug (canonical_git_repo_slug parse_url raw) slug e
      (canonical_git_repo_slug-IfOk parse_url raw)
