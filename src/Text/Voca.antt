-- ===== src/Text/Voca.antt =====
-- apl_getvoca: which word of a vocabulary it finds.
use vzgot.Base.{
  ℕ, suc, ◌≡◌, ◌≢◌, refl, ◌∙◌, Bool, true, false, Option, none, some, List, [], ◌∷◌, ◌++◌, arith,
  ◌==◌, All, Bool-cases, inl, inr, ==_iff, not, ◌&&◌, Option-cases, get_elem?, zero,
}
use vzgot.Text.{
  Bytes, to_lower, is_alnum, is_space, skip_spaces, after_key, Voc, starts_alnum, scan_voca,
  getvoca,
}

-- two words are the same but for the case of their letters
unfoldable pub same_word : Bytes → Bytes → Bool
same_word [] [] = true
same_word (a ∷ s) (b ∷ t) = to_lower a == to_lower b && same_word s t
same_word [] (b ∷ t) = false
same_word (a ∷ s) [] = false

abbrev pub Word : Bytes → Type 0
Word = All (λ c. is_alnum c ≡ true)

-- what is behind a key that is the word in front of `rest`
after_key-same :
    (key word rest : Bytes) → same_word key word ≡ true → after_key key (word ++ rest) ≡ some rest
unfolding after_key same_word
after_key-same [] [] rest h = refl
after_key-same [] (c ∷ word) rest h = cc
after_key-same (k ∷ key) [] rest h = cc
after_key-same (k ∷ key) (c ∷ word) rest h = ground (arith, after_key-same key word rest)

-- case does not change whether a byte is alphanumeric
alnum_lower : (a b : ℕ) → to_lower a ≡ to_lower b → is_alnum a ≡ is_alnum b
unfolding to_lower is_alnum
alnum_lower a b h = ground arith

-- no key, or one that a longer word follows
Refused : Option Bytes → Type 0
Refused none = Unit
Refused (some rest) = starts_alnum rest ≡ true

-- a key that is another word is not found in front of a word's end
after_key-other :
    (key word rest : Bytes)
    → Word key
    → Word word
    → starts_alnum rest ≡ false
    → same_word key word ≡ false
    → Refused (after_key key (word ++ rest))
unfolding after_key starts_alnum Refused same_word
after_key-other [] [] rest k w r h = cc
after_key-other [] (c ∷ word) rest k w r h = w.0
after_key-other (k ∷ key) [] [] ks w r h = tt
after_key-other (k ∷ key) [] (c ∷ rest) ks w r h = elim (Bool-cases (to_lower k == to_lower c)) [
  | inl hit ↦ absurd (ground (arith, alnum_lower k c ((==_iff _ _).0 hit), ks.0))
  | inr miss ↦ rw miss tt
]
after_key-other (k ∷ key) (c ∷ word) rest ks w r h = elim (Bool-cases (to_lower k == to_lower c)) [
  | inl hit ↦ rw hit (after_key-other key word rest ks.1 w.1 r (rw hit at h))
  | inr miss ↦ rw miss tt
]

same_word_trans :
    (u v word : Bytes) → same_word u word ≡ true → same_word v word ≡ true → same_word u v ≡ true
unfolding same_word
same_word_trans [] [] word h k = refl
same_word_trans (a ∷ u) (b ∷ v) (c ∷ word) h k = ground (arith, same_word_trans u v word)
same_word_trans [] (b ∷ v) [] h k = cc
same_word_trans [] (b ∷ v) (c ∷ word) h k = cc
same_word_trans (a ∷ u) [] [] h k = cc
same_word_trans (a ∷ u) [] (c ∷ word) h k = cc
same_word_trans (a ∷ u) (b ∷ v) [] h k = cc

same_word_sym : (u v : Bytes) → same_word u v ≡ same_word v u
unfolding same_word
same_word_sym [] [] = refl
same_word_sym [] (b ∷ v) = refl
same_word_sym (a ∷ u) [] = refl
same_word_sym (a ∷ u) (b ∷ v) = ground (arith, same_word_sym u v)

-- no entry of the table has the key `key`
unfoldable pub absent : Bytes → List Voc → Bool
absent key [] = true
absent key (u ∷ table) = not (same_word key u.key) && absent key table

-- the keys are words, and pairwise different ones
unfoldable pub distinct : List Voc → Bool
unfolding absent
distinct [] = true
distinct (v ∷ table) = absent v.key table && distinct table

abbrev pub Words : List Voc → Type 0
Words = All (λ v. Word v.key)

-- an entry that is refused is passed over
scan_voca-skip :
    (unknown : ℕ) (v : Voc) (table : List Voc) (str sptr : Bytes)
    → Refused (after_key v.key sptr)
    → scan_voca unknown (v ∷ table) str sptr ≡ scan_voca unknown table str sptr
unfolding scan_voca Refused
scan_voca-skip unknown v table str sptr h = elim (Option-cases (after_key v.key sptr)) [
  | inl e ↦ rw (e, scan_voca)
  | inr (rest, e) ↦ let r : starts_alnum rest ≡ true = rw e at h in rw (e, scan_voca) (rw r)
]

module _ (unknown : ℕ) (str word rest : Bytes) (w : Word word) (r : starts_alnum rest ≡ false) where
  absent-skips :
      (v : Voc) (table : List Voc) (i : ℕ) {u : Voc}
      → absent v.key table ≡ true
      → get_elem? table i ≡ some u
      → same_word u.key word ≡ true
      → same_word v.key word ≡ false
  unfolding absent
  absent-skips v [] i a g s = cc
  absent-skips v (x ∷ table) zero {u} a g s = elim (Bool-cases (same_word v.key word)) [
    | inl hit ↦ absurd (ground (arith, same_word_trans v.key u.key word hit s))
    | inr miss ↦ miss
  ]
  absent-skips v (x ∷ table) (suc i) a g s = absent-skips v table i (ground arith) g s

  scan_voca-finds :
      (table : List Voc) (i : ℕ) {v : Voc}
      → distinct table ≡ true
      → Words table
      → get_elem? table i ≡ some v
      → same_word v.key word ≡ true
      → scan_voca unknown table str (word ++ rest) ≡ (v.code, skip_spaces rest)
  unfolding distinct
  scan_voca-finds [] i d ks g s = cc
  scan_voca-finds (x ∷ table) zero {v} d ks g s =
      unfold scan_voca in ground (arith, after_key-same v.key word rest s)
  scan_voca-finds (x ∷ table) (suc i) {v} d ks g s =
      scan_voca-skip unknown x table str _ (
        after_key-other x.key word rest ks.0 w r
          (absent-skips x table i {u = v} (ground arith) g s))
      ∙ scan_voca-finds table i (ground arith) ks.1 g s

skip_spaces-front :
    (blanks word rest : Bytes)
    → All (λ c. is_space c ≡ true) blanks
    → Word word
    → word ≢ []
    → skip_spaces (blanks ++ (word ++ rest)) ≡ word ++ rest
unfolding skip_spaces
skip_spaces-front [] [] rest b w ne = absurd (ne refl)
skip_spaces-front [] (c ∷ word) rest b w ne = unfold is_space is_alnum in ground arith
skip_spaces-front (c ∷ blanks) word rest b w ne =
    rw b.0 (skip_spaces-front blanks word rest b.1 w ne)

-- In a vocabulary of pairwise different alphanumeric words, apl_getvoca finds the entry of each
-- word, in any letter case and behind any spaces, if no letter or digit follows it, whatever
-- other words begin with the same letters; and what it leaves starts at the next word.
pub getvoca_finds :
    (unknown : ℕ) (table : List Voc) (i : ℕ) {v : Voc} (blanks word rest : Bytes)
    → distinct table ≡ true
    → Words table
    → get_elem? table i ≡ some v
    → same_word v.key word ≡ true
    → All (λ c. is_space c ≡ true) blanks
    → Word word
    → word ≢ []
    → starts_alnum rest ≡ false
    → getvoca unknown table (blanks ++ (word ++ rest)) ≡ (v.code, skip_spaces rest)
unfolding getvoca
getvoca_finds unknown table i blanks word rest d ks g s b w ne r =
    rw (skip_spaces-front blanks word rest b w ne)
      (scan_voca-finds unknown _ word rest w r table i d ks g s)

-- In a vocabulary of alphanumeric words, an alphanumeric word that it lacks, behind any spaces
-- and with no letter or digit behind it, gives the sentinel's code, and the text stays as it was.
pub getvoca_unknown :
    (unknown : ℕ) (table : List Voc) (blanks word rest : Bytes)
    → absent word table ≡ true
    → Words table
    → All (λ c. is_space c ≡ true) blanks
    → Word word
    → word ≢ []
    → starts_alnum rest ≡ false
    → getvoca unknown table (blanks ++ (word ++ rest)) ≡ (unknown, blanks ++ (word ++ rest))
unfolding getvoca
getvoca_unknown unknown table blanks word rest a ks b w ne r =
    rw (skip_spaces-front blanks word rest b w ne) (go table a ks)
  where
    go :
        (t : List Voc)
        → absent word t ≡ true
        → Words t
        → scan_voca unknown t (blanks ++ (word ++ rest)) (word ++ rest)
          ≡ (unknown, blanks ++ (word ++ rest))
    go [] a ks = unfold scan_voca in refl
    go (v ∷ t) a ks =
        scan_voca-skip unknown v t _ _ (
          after_key-other v.key word rest ks.0 w r
            (unfold absent in ground (arith, same_word_sym v.key word)))
        ∙ go t (unfold absent in ground arith) ks.1
