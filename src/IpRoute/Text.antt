-- ===== src/IpRoute/Text.antt =====
-- The words of the line that makes a rule, and how `ip rule` reads them back.
use deepin_network_proxy.Prelude.{
  sym, ap, ◌∙◌, append_assoc, ◌≡◌, refl, Bool, true, false, not, ◌&&◌, List, [], ◌∷◌, ◌++◌, map,
  append_assoc, arith, if◌then◌else◌, shell_words, all_words, IsPlain, shell_words_plain, Bytes,
  nat_Eq, list_Eq, ◌==◌, ==_refl,
}
use deepin_network_proxy.IpRoute.{ap, option_args}

-- `WORD VALUE` in front of the other words, if it is there.
unfoldable pub read_option : Bytes → List Bytes → Bytes × List Bytes
read_option word (w ∷ value ∷ rest) = if w == word then (value, rest) else ([], w ∷ value ∷ rest)
read_option word ws = ([], ws)

-- The first word is not that one.
abbrev pub no_head : Bytes → List Bytes → Bool
no_head word [] = true
no_head word (w ∷ ws) = not (w == word)

no_head-option_args :
    (word other value : Bytes) (rest : List Bytes)
    → (other == word) ≡ false
    → no_head word rest ≡ true
    → no_head word (option_args other value ++ rest) ≡ true
unfolding option_args
no_head-option_args word other value rest h k = ground arith

read_option-option_args :
    (word value : Bytes) (rest : List Bytes)
    → no_head word rest ≡ true
    → read_option word (option_args word value ++ rest) ≡ (value, rest)
unfolding option_args read_option
read_option-option_args word [] [] h = refl
read_option-option_args word [] (w ∷ []) h = refl
read_option-option_args word [] (w ∷ v ∷ rest) h = ground arith
read_option-option_args word (c ∷ cs) rest h = rw (==_refl word) refl

-- The options of a command, word and value, and how they are read in their order.
abbrev pub options : List (Bytes × Bytes) → List Bytes
options [] = []
options ((word, value) ∷ os) = option_args word value ++ options os

unfoldable pub read_options : List Bytes → List Bytes → List Bytes × List Bytes
read_options [] ws = ([], ws)
read_options (word ∷ words) ws =
    let (value, ws') = read_option word ws in
    let (values, rest) = read_options words ws' in (value ∷ values, rest)

abbrev pub names : List (Bytes × Bytes) → List Bytes
names os = map (λ (o : Bytes × Bytes). o.0) os

abbrev pub values_of : List (Bytes × Bytes) → List Bytes
values_of os = map (λ (o : Bytes × Bytes). o.1) os

-- The word is none of those.
abbrev pub differs : Bytes → List Bytes → Bool
differs word [] = true
differs word (w ∷ ws) = not (w == word) && differs word ws

-- No two words are the same, and none is the first of the rest.
abbrev pub apart : List Bytes → List Bytes → Bool
apart [] rest = true
apart (w ∷ ws) rest = (differs w ws && no_head w rest) && apart ws rest

pub no_head-options :
    (word : Bytes) (os : List (Bytes × Bytes)) (rest : List Bytes)
    → differs word (names os) ≡ true
    → no_head word rest ≡ true
    → no_head word (options os ++ rest) ≡ true
no_head-options word [] rest h k = k
no_head-options word ((w, value) ∷ os) rest h k =
    rw (append_assoc (option_args w value) (options os) rest) (
      no_head-option_args word w value (options os ++ rest) (ground arith)
        (no_head-options word os rest (ground arith) k))

pub read_options-options :
    (os : List (Bytes × Bytes)) (rest : List Bytes)
    → apart (names os) rest ≡ true
    → read_options (names os) (options os ++ rest) ≡ (values_of os, rest)
unfolding read_options
read_options-options [] rest h = refl
read_options-options ((w, value) ∷ os) rest h =
    let here =
      read_option-option_args w value (options os ++ rest)
        (no_head-options w os rest (ground arith) (ground arith)) in
    rw (append_assoc (option_args w value) (options os) rest)
      (rw here (rw (read_options-options os rest (ground arith)) refl))

-- A word of a command line: without spaces, and not empty.
abbrev pub IsWord : Bytes → Type 0
IsWord [] = ⊥
IsWord (c ∷ cs) = IsPlain (c ∷ cs)

abbrev pub AreWords : List Bytes → Type 0
AreWords [] = Unit {0}
AreWords (w ∷ ws) = IsWord w × AreWords ws

pub shell_words_word : (w : Bytes) → IsWord w → shell_words w ≡ w ∷ []
shell_words_word [] h = absurd h
shell_words_word (c ∷ cs) h = shell_words_plain c cs h

pub all_words_words : (ws : List Bytes) → AreWords ws → all_words ws ≡ ws
all_words_words [] h = refl
all_words_words (w ∷ ws) h = rw (shell_words_word w h.0, all_words_words ws h.1) refl

pub AreWords-append : (ws vs : List Bytes) → AreWords ws → AreWords vs → AreWords (ws ++ vs)
AreWords-append [] vs h k = k
AreWords-append (w ∷ ws) vs h k = (h.0, AreWords-append ws vs h.1 k)

AreWords-option_args :
    (word value : Bytes) → IsWord word → IsPlain value → AreWords (option_args word value)
unfolding option_args
AreWords-option_args word [] h k = tt
AreWords-option_args word (c ∷ cs) h k = (h, (k, tt))

-- The values of the options have no spaces in them.
abbrev pub ArePlain : List (Bytes × Bytes) → Type 0
ArePlain [] = Unit {0}
ArePlain ((w, v) ∷ os) = IsPlain v × ArePlain os

pub AreWords-options :
    (os : List (Bytes × Bytes)) → AreWords (names os) → ArePlain os → AreWords (options os)
AreWords-options [] h k = tt
AreWords-options ((w, v) ∷ os) h k =
    AreWords-append (option_args w v) (options os) (AreWords-option_args w v h.0 k.0)
      (AreWords-options os h.1 k.1)

pub options-append : (os ps : List (Bytes × Bytes)) → options (os ++ ps) ≡ options os ++ options ps
options-append [] ps = refl
options-append ((w, v) ∷ os) ps =
    ap (λ ws. option_args w v ++ ws) (options-append os ps)
    ∙ sym (append_assoc (option_args w v) (options os) (options ps))

pub ArePlain-front :
    (os ps : List (Bytes × Bytes)) → ArePlain (os ++ ps) → ArePlain os × ArePlain ps
ArePlain-front [] ps h = (tt, h)
ArePlain-front ((w, v) ∷ os) ps h =
    let (front, back) = ArePlain-front os ps h.1 in ((h.0, front), back)
