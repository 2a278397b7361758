-- ===== src/Dbus/Desktop.antt =====
-- dbus/utils.go: parseDesktopPath, which turns what a client names into the path of a program. The reading
-- of a desktop file, the search in PATH and the links are parameters.
use mathlib.Core.Option.{none-ne-some}
use deepin_network_proxy.Prelude.{
  ◌≡◌, refl, subst, ◌⊎◌, inl, inr, Bool, true, false, not, ◌||◌, Option, none, some, [], ◌∷◌,
  nat_eq, if◌then◌else◌, Bool-cases, Option-cases, Bytes, codes, nat_Eq, list_Eq, ◌==◌, some_inj,
}

-- What the function asks of the system; `none` is an error. `is_link` is `os.Lstat` with the mode's bit.
pub record Programs : Type 0 where
  pub executable : Bytes → Option Bytes
  pub look_path : Bytes → Option Bytes
  pub is_link : Bytes → Option Bool
  pub read_link : Bytes → Option Bytes

-- `strings.HasSuffix`.
abbrev pub has_suffix : Bytes → Bytes → Bool
has_suffix suffix [] = suffix == []
has_suffix suffix (c ∷ cs) = (c ∷ cs) == suffix || has_suffix suffix cs

-- `filepath.IsAbs`.
abbrev pub is_abs : Bytes → Bool
is_abs [] = false
is_abs (c ∷ cs) = nat_eq c b'/'

-- The path of the executable that a desktop file names.
unfoldable pub absolute : Programs → Bytes → Option Bytes
absolute P table = if is_abs table then some table else P.look_path table

-- One link is followed, and its text is taken as it is.
unfoldable pub follow : Programs → Bytes → Option Bytes
follow P table = elim (P.is_link table) [
  | none ↦ none
  | some false ↦ some table
  | some true ↦ P.read_link table
]

abbrev pub and_then : Option Bytes → (Bytes → Option Bytes) → Option Bytes
and_then none f = none
and_then (some x) f = f x

-- `parseDesktopPath`.
unfoldable pub parse_desktop_path : Programs → Bytes → Option Bytes
parse_desktop_path P app =
    if not (has_suffix (codes ".desktop") app)
    then some app
    else and_then (and_then (P.executable app) (absolute P)) (follow P)

abbrev Way : Programs → Bytes → Type 0
Way P path =
    (is_abs path ≡ true)
    ⊎ ((table : Bytes) × (P.is_link table ≡ some true) × (P.read_link table ≡ some path))

and_then-some :
    (o : Option Bytes) (f : Bytes → Option Bytes) {y : Bytes}
    → and_then o f ≡ some y
    → (x : Bytes) × (o ≡ some x) × (f x ≡ some y)
and_then-some none f e = absurd (none-ne-some _ e)
and_then-some (some x) f e = (x, refl, e)

follow-Way :
    (P : Programs) (table : Bytes) {path : Bytes}
    → is_abs table ≡ true
    → follow P table ≡ some path
    → Way P path
unfolding follow
follow-Way P table {path} abs e = elim (Option-cases (P.is_link table)) [
  | inl nothing ↦
      let missing : none ≡ some path = rw (follow, nothing) at e in
      absurd (none-ne-some path missing)
  | inr (true, link) ↦
      let text : P.read_link table ≡ some path = rw (follow, link) at e in inr (table, link, text)
  | inr (false, plain) ↦
      let same : some table ≡ some path = rw (follow, plain) at e in
      inl (subst (λ t. is_abs t ≡ true) (some_inj same) abs)
]

-- `look_path` gives absolute paths.
absolute-is_abs :
    (P : Programs) (name : Bytes) {table : Bytes}
    → ((name found : Bytes) → P.look_path name ≡ some found → is_abs found ≡ true)
    → absolute P name ≡ some table
    → is_abs table ≡ true
unfolding absolute
absolute-is_abs P name {table} finds e = elim (Bool-cases (is_abs name)) [
  | inl abs ↦
      let same : some name ≡ some table = rw abs at e in
      subst (λ t. is_abs t ≡ true) (some_inj same) abs
  | inr rel ↦ let looked : P.look_path name ≡ some table = rw rel at e in finds name table looked
]

-- A path that comes of a desktop file is absolute, or the bare text of a link; `look_path` gives absolute
-- paths.
pub parse_desktop_path_abs :
    (P : Programs) (app : Bytes) {path : Bytes}
    → ((name found : Bytes) → P.look_path name ≡ some found → is_abs found ≡ true)
    → has_suffix (codes ".desktop") app ≡ true
    → parse_desktop_path P app ≡ some path
    → Way P path
unfolding parse_desktop_path
parse_desktop_path_abs P app {path} finds ends e =
    let steps : and_then (and_then (P.executable app) (absolute P)) (follow P) ≡ some path =
      rw ends at e in
    let (table, found, followed) =
      and_then-some (and_then (P.executable app) (absolute P)) (follow P) steps in
    let (name, read, whole) = and_then-some (P.executable app) (absolute P) found in
    follow-Way P table (absolute-is_abs P name finds whole) followed
