-- ===== src/CabinetCli/Words.antt =====
-- A typed line is split at its blanks.
use cabinet.Base.{
  All, Bytes, List, [], ap, append-nil, append_assoc, arith, drop-append, false, length,
  length-append, map, none, refl, some, suc, sym, take-append, zero, ℕ, ◌++◌, ◌+◌, ◌==◌, ◌∙◌, ◌∷◌,
  ◌≡◌, ◌≤◌,
}
use cabinet.CabinetCli.{blank, find_blank, skip_blanks, split_at, split_words}
use cabinet.Number.RoundTrip.{Lacks}

-- A word has no blank and is not empty.
pub record IsWord (w : Bytes) : Type 0 where
  pub clean : Lacks blank w
  pub filled : (length w == 0) ≡ false

unfoldable pub blanks : ℕ → Bytes
blanks zero = []
blanks (suc n) = blank ∷ blanks n

-- A line of words, each but the last with as many blanks behind it and one more.
unfoldable pub line : Bytes → List (ℕ × Bytes) → Bytes
unfolding blanks
line w [] = w
line w ((n, v) ∷ vs) = w ++ blank ∷ (blanks n ++ line v vs)

abbrev pub words_of : Bytes → List (ℕ × Bytes) → List Bytes
words_of w vs = w ∷ map (λ v. v.1) vs

find_blank-none : (w : Bytes) → Lacks blank w → find_blank w ≡ none
unfolding find_blank
find_blank-none [] h = refl
find_blank-none (c ∷ w) h = rw (h.0, find_blank-none w h.1) refl

find_blank-Lacks :
    (w rest : Bytes) → Lacks blank w → find_blank (w ++ blank ∷ rest) ≡ some (length w)
unfolding find_blank
find_blank-Lacks [] rest h = refl
find_blank-Lacks (c ∷ w) rest h = rw (h.0, find_blank-Lacks w rest h.1) refl

skip_blanks-word : (w rest : Bytes) → IsWord w → skip_blanks (w ++ rest) ≡ w ++ rest
unfolding skip_blanks
skip_blanks-word [] rest h = absurd (let f = h.filled in ground arith)
skip_blanks-word (c ∷ w) rest h = rw h.clean.0 refl

skip_blanks-blanks : (n : ℕ) (rest : Bytes) → skip_blanks (blanks n ++ rest) ≡ skip_blanks rest
unfolding skip_blanks blanks
skip_blanks-blanks zero rest = refl
skip_blanks-blanks (suc n) rest = skip_blanks-blanks n rest

line-starts : (w : Bytes) (vs : List (ℕ × Bytes)) → IsWord w → skip_blanks (line w vs) ≡ line w vs
unfolding line
line-starts w [] h = ap skip_blanks (sym (append-nil w)) ∙ skip_blanks-word w [] h ∙ append-nil w
line-starts w ((n, v) ∷ vs) h = skip_blanks-word w _ h

split_at-last :
    (w : Bytes) (words : List Bytes)
    → IsWord w
    → split_at w words (find_blank w) ≡ ([], words ++ w ∷ [])
split_at-last w words h = ap (split_at w words) (find_blank-none w h.clean)

split_at-word :
    (w : Bytes) (n : ℕ) (v : Bytes) (vs : List (ℕ × Bytes)) (words : List Bytes)
    → IsWord w
    → IsWord v
    → split_at (line w ((n, v) ∷ vs)) words (find_blank (line w ((n, v) ∷ vs)))
      ≡ (line v vs, words ++ w ∷ [])
unfolding line blanks
split_at-word w n v vs words h hv =
    ap (split_at _ words) (find_blank-Lacks w _ h.clean)
    ∙ rw (drop-append, take-append)
        (ap (λ i. (i, words ++ w ∷ []))
          (skip_blanks-blanks (suc n) (line v vs) ∙ line-starts v vs hv))

abbrev go_on : ℕ → Bytes × List Bytes → Bytes × List Bytes
go_on fuel (input, words) = split_words fuel input words

split_words-step :
    (fuel : ℕ) (input : Bytes) (words : List Bytes)
    → (length input == 0) ≡ false
    → split_words (suc fuel) input words ≡ go_on fuel (split_at input words (find_blank input))
unfolding split_words
split_words-step fuel [] words filled = absurd (ground arith)
split_words-step fuel (c ∷ cs) words filled = refl

split_words-done : (fuel : ℕ) (words : List Bytes) → split_words fuel [] words ≡ ([], words)
unfolding split_words
split_words-done zero words = refl
split_words-done (suc fuel) words = refl

length-blanks : (n : ℕ) → length (blanks n) ≡ n
unfolding blanks
length-blanks zero = refl
length-blanks (suc n) = ap suc (length-blanks n)

length-line :
    (w : Bytes) (n : ℕ) (v : Bytes) (vs : List (ℕ × Bytes))
    → length (line w ((n, v) ∷ vs)) ≡ length w + suc (n + length (line v vs))
unfolding line
length-line w n v vs =
    length-append w (blank ∷ (blanks n ++ line v vs))
    ∙ ap (λ k. length w + suc k)
        (length-append (blanks n) (line v vs) ∙ ap (λ k. k + length (line v vs)) (length-blanks n))

line-one : (w : Bytes) → length (line w []) ≡ length w
unfolding line
line-one w = refl

-- The words of a line, with enough fuel.
pub split_words-line :
    (fuel : ℕ) (w : Bytes) (vs : List (ℕ × Bytes)) (words : List Bytes)
    → length (line w vs) ≤ fuel
    → IsWord w
    → All (λ v. IsWord v.1) vs
    → split_words fuel (line w vs) words ≡ ([], words ++ words_of w vs)
split_words-line zero w [] words enough h hs =
    absurd (let e = line-one w in let f = h.filled in ground (arith, e, f, enough))
split_words-line zero w ((n, v) ∷ vs) words enough h hs =
    absurd (let e = length-line w n v vs in omega arith)
split_words-line (suc fuel) w [] words enough h hs =
    unfold line in
    split_words-step fuel w words h.filled
    ∙ ap (go_on fuel) (split_at-last w words h)
    ∙ split_words-done fuel (words ++ w ∷ [])
split_words-line (suc fuel) w ((n, v) ∷ vs) words enough h (hv, hs) =
    let size = length-line w n v vs in
    split_words-step fuel (line w ((n, v) ∷ vs)) words (ground arith)
    ∙ ap (go_on fuel) (split_at-word w n v vs words h hv)
    ∙ split_words-line fuel v vs (words ++ w ∷ []) (omega arith) hv hs
    ∙ ap (λ ws. (let r : Bytes × List Bytes = ([], ws) in r)) (append_assoc words (w ∷ []) _)
