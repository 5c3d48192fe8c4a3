-- ===== src/Text/Tokens.antt =====
-- How a text that was printed with single spaces comes apart again.
use brix.Base.{
  ◌≡◌, refl, false, sym, ap, ◌∙◌, List, [], ◌∷◌, ◌++◌, append_assoc, append-nil, arith, Bytes, All,
}
use brix.Text.{space, is_space, flush, split, tokens}

-- A token: at least one character, and no white space.
abbrev pub IsToken : Bytes → Type 0
IsToken [] = ⊥
IsToken (c ∷ s) = All (λ d. is_space d ≡ false) (c ∷ s)

split-append :
    (w cur rest : Bytes)
    → All (λ d. is_space d ≡ false) w
    → split cur (w ++ rest) ≡ split (cur ++ w) rest
unfolding split
split-append [] cur rest h = rw append-nil
split-append (c ∷ w) cur rest h =
    ground (arith, split-append w (cur ++ c ∷ []) rest h.1, append_assoc cur (c ∷ []) w)

flush_token : (w : Bytes) (ws : List Bytes) → IsToken w → flush w ws ≡ w ∷ ws
unfolding flush
flush_token [] ws h = absurd h
flush_token (c ∷ w) ws h = refl

token-All : (w : Bytes) → IsToken w → All (λ d. is_space d ≡ false) w
token-All [] h = absurd h
token-All (c ∷ w) h = h

split_at_space : (cur rest : Bytes) → split cur (space ∷ rest) ≡ flush cur (split [] rest)
unfolding split
split_at_space cur rest = refl

-- A space behind a token ends it.
pub tokens-cons : (w rest : Bytes) → IsToken w → tokens (w ++ space ∷ rest) ≡ w ∷ tokens rest
unfolding tokens
tokens-cons w rest h =
    rw (split-append w [] (space ∷ rest) (token-All w h), split_at_space) (flush_token w _ h)

-- A token at the end needs no space.
pub tokens_last : (w : Bytes) → IsToken w → tokens w ≡ w ∷ []
unfolding tokens
tokens_last w h =
    ap (λ s. split [] s) (sym (append-nil w))
    ∙ split-append w [] [] (token-All w h)
    ∙ flush_token w [] h

pub tokens-nil : tokens [] ≡ []
unfolding tokens
tokens-nil = refl

-- The tokens that a text printed with a space behind each begins with.
unfoldable pub spaced : List Bytes → Bytes → Bytes
spaced [] rest = rest
spaced (w ∷ ws) rest = w ++ space ∷ spaced ws rest

pub tokens-spaced :
    (ws : List Bytes) (rest : Bytes) → All IsToken ws → tokens (spaced ws rest) ≡ ws ++ tokens rest
unfolding spaced
tokens-spaced [] rest h = refl
tokens-spaced (w ∷ ws) rest h = rw (tokens-cons w _ h.0, tokens-spaced ws rest h.1)
