-- ===== src/Prelude/Words.antt =====
-- Words on a command line: how the program joins them, and how the shell takes them apart.
use Prim.Native.Nat.{ℕ}
use mathlib.Core.Path.{◌≡◌, refl, sym, ap, ◌∙◌}
use mathlib.Core.Logic.{◌≢◌, inl, inr}
use mathlib.Core.List.{List, [], ◌∷◌, ◌++◌, append-nil}
use deepin_network_proxy.Prelude.Tests.{
  nat_eq, if◌then◌else◌, nat_eq-false, nat_eq_refl, Bool-cases,
}
use deepin_network_proxy.Prelude.Lists.{Bytes}

-- `strings.Join(sl, " ")`.
unfoldable pub join_spaces : List Bytes → Bytes
join_spaces [] = []
join_spaces (w ∷ []) = w
join_spaces (w ∷ v ∷ ws) = w ++ (b' ' ∷ join_spaces (v ∷ ws))

abbrev push : ℕ → List Bytes → List Bytes
push c [] = (c ∷ []) ∷ []
push c (w ∷ ws) = (c ∷ w) ∷ ws

-- `strings.Split(s, sep)` for a separator of one byte: what stands between the separators.
unfoldable pub split_on : ℕ → Bytes → List Bytes
split_on sep [] = [] ∷ []
split_on sep (c ∷ cs) =
    let rest = split_on sep cs in if nat_eq c sep then [] ∷ rest else push c rest

abbrev drop_empty : List Bytes → List Bytes
drop_empty [] = []
drop_empty ([] ∷ ws) = drop_empty ws
drop_empty ((c ∷ cs) ∷ ws) = (c ∷ cs) ∷ drop_empty ws

-- The fields of a command line without quotes: empty ones do not count.
unfoldable pub shell_words : Bytes → List Bytes
unfolding split_on
shell_words s = drop_empty (split_on b' ' s)

abbrev pub all_words : List Bytes → List Bytes
all_words [] = []
all_words (w ∷ ws) = shell_words w ++ all_words ws

pub data IsSplit : List Bytes → Type 0 where
  split : (w : Bytes) (ws : List Bytes) → IsSplit (w ∷ ws)

push-IsSplit : (c : ℕ) (ws : List Bytes) → IsSplit (push c ws)
push-IsSplit c [] = split (c ∷ []) []
push-IsSplit c (w ∷ ws) = split (c ∷ w) ws

pub split_on-IsSplit : (sep : ℕ) (s : Bytes) → IsSplit (split_on sep s)
unfolding split_on
split_on-IsSplit sep [] = split [] []
split_on-IsSplit sep (c ∷ cs) = elim (Bool-cases (nat_eq c sep)) [
  | inl here ↦ rw here (split [] (split_on sep cs))
  | inr other ↦ rw other (push-IsSplit c (split_on sep cs))
]

push-append :
    (c : ℕ) {ws : List Bytes} (vs : List Bytes) → IsSplit ws → push c (ws ++ vs) ≡ push c ws ++ vs
push-append c vs (split w ws) = refl

pub split_on-append :
    (sep : ℕ) (s t : Bytes) → split_on sep (s ++ (sep ∷ t)) ≡ split_on sep s ++ split_on sep t
unfolding split_on
split_on-append sep [] t = rw (nat_eq_refl sep) refl
split_on-append sep (c ∷ cs) t = elim (Bool-cases (nat_eq c sep)) [
  | inl here ↦ rw here (ap (◌∷◌ []) (split_on-append sep cs t))
  | inr other ↦ rw other (
      ap (push c) (split_on-append sep cs t)
      ∙ push-append c (split_on sep t) (split_on-IsSplit sep cs))
]

-- The separator does not stand in the text.
abbrev pub IsWithout : ℕ → Bytes → Type 0
IsWithout sep [] = Unit {0}
IsWithout sep (c ∷ cs) = (c ≢ sep) × IsWithout sep cs

-- A word without spaces; it may be empty.
abbrev pub IsPlain : Bytes → Type 0
IsPlain w = IsWithout b' ' w

pub split_on_without : (sep : ℕ) (w : Bytes) → IsWithout sep w → split_on sep w ≡ w ∷ []
unfolding split_on
split_on_without sep [] h = refl
split_on_without sep (c ∷ cs) h =
    rw (nat_eq-false c sep h.0) (ap (push c) (split_on_without sep cs h.1))

drop_empty-append : (ws vs : List Bytes) → drop_empty (ws ++ vs) ≡ drop_empty ws ++ drop_empty vs
drop_empty-append [] vs = refl
drop_empty-append ([] ∷ ws) vs = drop_empty-append ws vs
drop_empty-append ((c ∷ cs) ∷ ws) vs = ap (◌∷◌ (c ∷ cs)) (drop_empty-append ws vs)

-- The shell finds the words of each part.
pub shell_words-join_spaces : (ws : List Bytes) → shell_words (join_spaces ws) ≡ all_words ws
unfolding shell_words join_spaces split_on
shell_words-join_spaces [] = refl
shell_words-join_spaces (w ∷ []) = sym (append-nil (shell_words w))
shell_words-join_spaces (w ∷ v ∷ ws) =
    ap drop_empty (split_on-append b' ' w (join_spaces (v ∷ ws)))
    ∙ drop_empty-append (split_on b' ' w) (split_on b' ' (join_spaces (v ∷ ws)))
    ∙ ap (λ vs. shell_words w ++ vs) (shell_words-join_spaces (v ∷ ws))

pub shell_words_plain :
    (c : ℕ) (cs : Bytes) → IsPlain (c ∷ cs) → shell_words (c ∷ cs) ≡ (c ∷ cs) ∷ []
unfolding shell_words
shell_words_plain c cs h = ap drop_empty (split_on_without b' ' (c ∷ cs) h)
