-- ===== src/Text/Words.antt =====
-- `str::split_whitespace`: the words between runs of Unicode white space.
use telco_vecchio.Prelude.{
  ℕ, ◌≡◌, refl, ◌∙◌, Bool, true, false, ◌&&◌, ◌||◌, List, [], ◌∷◌, ◌++◌, arith, leb, ◌==◌, nat_eq,
  All, append-nil, append_assoc, ◌≢◌, All-append,
}
use telco_vecchio.Text.{Text, text}

-- `char::is_whitespace`
unfoldable pub is_whitespace : ℕ → Bool
is_whitespace c =
    (leb 0x9 c && leb c 0xD)
    || c == 0x20
    || c == 0x85
    || c == 0xA0
    || c == 0x1680
    || (leb 0x2000 c && leb c 0x200A)
    || c == 0x2028
    || c == 0x2029
    || c == 0x202F
    || c == 0x205F
    || c == 0x3000

-- a word so far, before the words behind it
keep_word : Text → List Text → List Text
keep_word [] ws = ws
keep_word (c ∷ w) ws = (c ∷ w) ∷ ws

words_from : Text → Text → List Text
unfolding keep_word
words_from cur [] = keep_word cur []
words_from cur (c ∷ s) = elim (is_whitespace c) [
  | true ↦ keep_word cur (words_from [] s)
  | false ↦ words_from (cur ++ c ∷ []) s
]

unfoldable pub split_whitespace : Text → List Text
unfolding words_from is_whitespace
split_whitespace = words_from []

-- No character is white space.
abbrev pub IsSolid : Text → Type 0
IsSolid = All (λ c. is_whitespace c ≡ false)

abbrev IsWord : Text → Type 0
IsWord w = (w ≢ []) × IsSolid w

keep_word-All :
    (w : Text) (ws : List Text) → IsSolid w → All IsWord ws → All IsWord (keep_word w ws)
unfolding keep_word
keep_word-All [] ws h hs = hs
keep_word-All (c ∷ w) ws h hs = ((λ e. cc, h), hs)

words_from-All : (cur s : Text) → IsSolid cur → All IsWord (words_from cur s)
unfolding words_from
words_from-All cur [] h = keep_word-All cur [] h tt
words_from-All cur (c ∷ s) h = ground (
  arith,
  keep_word-All cur (words_from [] s) h (words_from-All [] s tt),
  words_from-All (cur ++ c ∷ []) s,
  All-append (λ d. is_whitespace d ≡ false) cur (c ∷ []) h,
)

-- Every word of a request is non-empty and holds no white space.
pub split_whitespace-All : (s : Text) → All (λ w. (w ≢ []) × IsSolid w) (split_whitespace s)
unfolding split_whitespace
split_whitespace-All s = words_from-All [] s tt

words_from-solid : (w cur s : Text) → IsSolid w → words_from cur (w ++ s) ≡ words_from (cur ++ w) s
unfolding words_from
words_from-solid [] cur s h = rw append-nil
words_from-solid (c ∷ w) cur s h =
    ground (arith, words_from-solid w (cur ++ c ∷ []) s h.1, append_assoc cur (c ∷ []) w)

keep_word_lem : (w : Text) (ws : List Text) → w ≢ [] → keep_word w ws ≡ w ∷ ws
unfolding keep_word
keep_word_lem [] ws h = absurd (h refl)
keep_word_lem (c ∷ w) ws h = refl

words_from-space :
    (w : Text) (c : ℕ) (s : Text)
    → is_whitespace c ≡ true
    → words_from w (c ∷ s) ≡ keep_word w (words_from [] s)
unfolding words_from
words_from-space w c s h = ground arith

-- A word before white space is the first word.
pub split_whitespace-word :
    (w : Text) (c : ℕ) (s : Text)
    → w ≢ []
    → IsSolid w
    → is_whitespace c ≡ true
    → split_whitespace (w ++ c ∷ s) ≡ w ∷ split_whitespace s
unfolding split_whitespace
split_whitespace-word w c s ne h sp =
    rw (words_from-solid w [] (c ∷ s) h) (words_from-space w c s sp ∙ keep_word_lem w _ ne)

pub split_whitespace-last : (w : Text) → w ≢ [] → IsSolid w → split_whitespace w ≡ w ∷ []
unfolding split_whitespace
split_whitespace-last w ne h =
    rw (← append-nil w)
      (rw (words_from-solid w [] [] h) (unfold words_from in rw append-nil (keep_word_lem w _ ne)))

-- "  close  7 " has two words.
two_words : split_whitespace (text "  close  7 ") ≡ text "close" ∷ text "7" ∷ []
unfolding split_whitespace
two_words = refl
