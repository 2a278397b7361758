-- ===== src/Com/Pid.antt =====
-- `IsPid` of com/utils.go: the pattern `^[0-9]*[1-9][0-9]*$`.
use deepin_network_proxy.Prelude.{ℕ, Bool, false, ◌&&◌, ◌||◌, [], ◌∷◌, leb, Bytes, nat_Eq, list_Eq}

-- `[0-9]` and `[1-9]`.
abbrev pub digit : ℕ → Bool
digit c = leb b'0' c && leb c b'9'

abbrev pub positive_digit : ℕ → Bool
positive_digit c = leb b'1' c && leb c b'9'

-- The pattern matched from the front: with digits only, and one that is not 0 already seen or to come.
unfoldable pub match_pid : Bool → Bytes → Bool
match_pid seen [] = seen
match_pid seen (c ∷ cs) = let rest = match_pid (seen || positive_digit c) cs in digit c && rest

unfoldable pub is_pid : Bytes → Bool
is_pid s = match_pid false s
