-- ===== src/TextEquivalence.antt =====
-- androidctld/src/androidctld/text_equivalence.py: normal forms of text, and the texts of a raw node
-- that can be searched.
use androidctl.Prelude.{
  ℕ, Text, text, text_in, nonempty, nat_eq, Bool, true, false, ◌||◌, not, Option, none, some, List,
  [], ◌∷◌, ◌++◌, map, ◌≡◌, if◌then◌else◌, keep_if,
}
use androidctl.Models.Snapshots.{RawNode}

-- What the program takes from Python's Unicode tables: `unicodedata.normalize("NFKC", s)`,
-- `str.casefold`, `str.lower`, the characters of `\s`, which are those that `str.strip` removes, the
-- characters of `\d` with the values that `int` reads, and those of `str.isdigit`.
pub record Unicode : Type 0 where
  pub nfkc : Text → Text
  pub casefold : Text → Text
  pub lower : Text → Text
  pub is_space : ℕ → Bool
  pub decimal : ℕ → Option ℕ
  pub is_digit : ℕ → Bool
  pub space_is_space : is_space b' ' ≡ true

module _ (u : Unicode) where
  -- `re.sub(r"\s+", " ", s)`; the flag says whether the last character was part of a run.
  unfoldable pub collapse : Bool → Text → Text
  collapse in_run [] = []
  collapse in_run (c ∷ s) = elim (u.is_space c) [
    | true ↦ elim in_run [ true ↦ collapse true s | false ↦ b' ' ∷ collapse true s ]
    | false ↦ c ∷ collapse false s
  ]

  unfoldable pub lstrip : Text → Text
  lstrip [] = []
  lstrip (c ∷ s) = elim (u.is_space c) [ true ↦ lstrip s | false ↦ c ∷ s ]

  abbrev trim_after : ℕ → Text → Text
  trim_after c [] = if u.is_space c then [] else c ∷ []
  trim_after c (d ∷ t) = c ∷ d ∷ t

  unfoldable pub rstrip : Text → Text
  rstrip [] = []
  rstrip (c ∷ s) = trim_after c (rstrip s)

  -- `s.strip()`
  unfoldable pub strip : Text → Text
  unfolding lstrip rstrip
  strip s = rstrip (lstrip s)

  -- `_WHITESPACE_RE.sub(" ", s).strip()`
  unfoldable pub squeeze : Text → Text
  unfolding collapse strip
  squeeze s = strip (collapse false s)

  unfoldable pub normalized_text_surface : Option Text → Text
  unfolding squeeze
  normalized_text_surface none = []
  normalized_text_surface (some s) = squeeze (u.nfkc s)

  unfoldable pub canonical_text_key : Option Text → Text
  unfolding normalized_text_surface
  canonical_text_key v = u.casefold (normalized_text_surface v)

  abbrev state_only_tokens : List Text
  state_only_tokens =
      text "on"
      ∷ text "off"
      ∷ text "checked"
      ∷ text "unchecked"
      ∷ text "not checked"
      ∷ text "selected"
      ∷ text "disabled"
      ∷ text "focused"
      ∷ text "expanded"
      ∷ text "collapsed"
      ∷ text "password"
      ∷ []

  abbrev pub is_separator : ℕ → Bool
  is_separator c = nat_eq c b',' || (nat_eq c b';' || nat_eq c b'/')

  -- `re.split(r"[,;/]+", s)`; the first argument is the part that is being read, and the flag says
  -- whether the last character was a separator.
  unfoldable pub split_parts : Bool → Text → Text → List Text
  split_parts in_run part [] = part ∷ []
  split_parts in_run part (c ∷ s) = elim (is_separator c) [
    | true ↦ elim in_run [ true ↦ split_parts true part s | false ↦ part ∷ split_parts true [] s ]
    | false ↦ split_parts false (part ++ c ∷ []) s
  ]

  abbrev join_spaces : List Text → Text
  join_spaces [] = []
  join_spaces (p ∷ []) = p
  join_spaces (p ∷ q ∷ rest) = p ++ b' ' ∷ join_spaces (q ∷ rest)

  remainder_of : Text → List Text → Text
  remainder_of normalized [] = normalized
  remainder_of normalized (p ∷ ps) =
      join_spaces
        (keep_if (λ q. not (text_in (canonical_text_key (some q)) state_only_tokens)) (p ∷ ps))

  unfoldable pub semantic_state_description_remainder : Option Text → Text
  unfolding split_parts remainder_of
  semantic_state_description_remainder v =
      let normalized = normalized_text_surface v in
      if not (nonempty normalized)
      then []
      else remainder_of normalized (keep_if nonempty (map strip (split_parts false [] normalized)))

  -- The four texts of a node, normalized, without the empty ones.
  unfoldable pub searchable_raw_node_texts : RawNode → List Text
  searchable_raw_node_texts n = keep_if nonempty (
      map normalized_text_surface (
        n.text
        ∷ n.content_desc
        ∷ n.hint_text
        ∷ some (semantic_state_description_remainder n.state_description)
        ∷ []))
