-- ===== src/Texts/Joined.antt =====
-- Splitting a text that was joined, with white space about its pieces.
use archive_relay.Prelude.{
  ℕ, ◌≡◌, refl, ap, ◌∙◌, Bool, true, false, ◌&&◌, ◌||◌, List, [], ◌∷◌, ◌++◌, map, All, Bytes,
  is_nil, nat_eq, if◌then◌else◌, arith,
}
use archive_relay.Texts.{
  is_space, split, trim_left, trim_right, trim_space, keep_texts, split_texts,
}

abbrev pub is_blank : Bytes → Bool
is_blank [] = true
is_blank (c ∷ cs) = is_space c && is_blank cs

abbrev pub has_byte : ℕ → Bytes → Bool
has_byte sep [] = false
has_byte sep (c ∷ cs) = nat_eq c sep || has_byte sep cs

abbrev pub starts_blank : Bytes → Bool
starts_blank [] = false
starts_blank (c ∷ cs) = is_space c

abbrev pub ends_blank : Bytes → Bool
ends_blank [] = false
ends_blank (c ∷ []) = is_space c
ends_blank (c ∷ d ∷ cs) = ends_blank (d ∷ cs)

-- A piece of a joined text: a text with white space before and behind it.
pub record Piece : Type 0 where
  pub before : Bytes
  pub text : Bytes
  pub behind : Bytes

abbrev pub whole : Piece → Bytes
whole p = p.before ++ (p.text ++ p.behind)

pub record IsPadded (sep : ℕ) (p : Piece) : Type 0 where
  pub blank_before : is_blank p.before ≡ true
  pub blank_behind : is_blank p.behind ≡ true
  pub starts : starts_blank p.text ≡ false
  pub ends : ends_blank p.text ≡ false
  pub unsplit : has_byte sep (whole p) ≡ false

abbrev pub join : ℕ → List Bytes → Bytes
join sep [] = []
join sep (s ∷ []) = s
join sep (s ∷ t ∷ ss) = s ++ sep ∷ join sep (t ∷ ss)

abbrev pub nonempty : List Bytes → List Bytes
nonempty [] = []
nonempty (s ∷ ss) = let rest = nonempty ss in if is_nil s then rest else s ∷ rest

split_one : (sep : ℕ) (s : Bytes) → has_byte sep s ≡ false → split sep s ≡ s ∷ []
unfolding split
split_one sep [] h = refl
split_one sep (c ∷ cs) h = ground (arith, h, split_one sep cs)

split-append :
    (sep : ℕ) (s rest : Bytes)
    → has_byte sep s ≡ false
    → split sep (s ++ sep ∷ rest) ≡ s ∷ split sep rest
unfolding split
split-append sep [] rest h = ground arith
split-append sep (c ∷ cs) rest h = ground (arith, h, split-append sep cs rest)

trim_left_blank : (b s : Bytes) → is_blank b ≡ true → trim_left (b ++ s) ≡ trim_left s
unfolding trim_left
trim_left_blank [] s h = refl
trim_left_blank (c ∷ cs) s h = ground (arith, h, trim_left_blank cs s)

trim_right_blank : (a : Bytes) → is_blank a ≡ true → trim_right a ≡ []
unfolding trim_right
trim_right_blank [] h = refl
trim_right_blank (c ∷ cs) h = ground (arith, h, trim_right_blank cs)

trim_right-append :
    (s a : Bytes) → ends_blank s ≡ false → is_blank a ≡ true → trim_right (s ++ a) ≡ s
unfolding trim_right
trim_right-append [] a e h = trim_right_blank a h
trim_right-append (c ∷ []) a e h = ground (arith, e, trim_right_blank a h)
trim_right-append (c ∷ d ∷ cs) a e h = ground (arith, trim_right-append (d ∷ cs) a e h)

trim_left_all : (a : Bytes) → is_blank a ≡ true → trim_left a ≡ []
unfolding trim_left
trim_left_all [] h = refl
trim_left_all (c ∷ cs) h = ground (arith, h, trim_left_all cs)

trim_left-append :
    (s a : Bytes)
    → starts_blank s ≡ false
    → ends_blank s ≡ false
    → is_blank a ≡ true
    → trim_right (trim_left (s ++ a)) ≡ s
unfolding trim_left trim_right
trim_left-append [] a b e h = ap trim_right (trim_left_all a h)
trim_left-append (c ∷ cs) a b e h = ground (arith, b, trim_right-append (c ∷ cs) a e h)

trim_space-whole : (sep : ℕ) (p : Piece) → IsPadded sep p → trim_space (whole p) ≡ p.text
unfolding trim_space
trim_space-whole sep p i =
    ap trim_right (trim_left_blank p.before (p.text ++ p.behind) i.blank_before)
    ∙ trim_left-append p.text p.behind i.starts i.ends i.blank_behind

keep_texts-cons :
    (sep : ℕ) (p : Piece) (pieces texts : List Bytes)
    → IsPadded sep p
    → keep_texts pieces ≡ texts
    → keep_texts (whole p ∷ pieces) ≡ (if is_nil p.text then texts else p.text ∷ texts)
keep_texts-cons sep p pieces texts i e = rw (trim_space-whole sep p i, e) refl

pub split_texts-join :
    (sep : ℕ) (ps : List Piece)
    → All (IsPadded sep) ps
    → split_texts sep (join sep (map whole ps)) ≡ nonempty (map (λ p. p.text) ps)
unfolding split_texts
split_texts-join sep [] h = unfold split trim_space trim_left trim_right in refl
split_texts-join sep (p ∷ []) h =
    rw (split_one sep (whole p) h.0.unsplit) (keep_texts-cons sep p [] [] h.0 refl)
split_texts-join sep (p ∷ q ∷ ps) h =
    rw (split-append sep (whole p) (join sep (map whole (q ∷ ps))) h.0.unsplit)
      (keep_texts-cons sep p _ _ h.0 (split_texts-join sep (q ∷ ps) h.1))
