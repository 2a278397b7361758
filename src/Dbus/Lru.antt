-- ===== src/Dbus/Lru.antt =====
-- github.com/golang/groupcache/lru as dbus/fakeip_cache.go uses it: an interface, since the package
-- is not part of the repository. A key is a value of Go's `interface{}`: a domain or a number, which
-- are never equal. `content` is what the cache holds; the laws are what the package documents.
use deepin_network_proxy.Prelude.{ℕ, ◌≡◌, ◌≢◌, ◌⊎◌, Option, none, some, Bytes, nat_Eq, list_Eq}

pub data Key : Type 0 where
  domain_key : Bytes → Key
  number_key : ℕ → Key

pub record Lru (V : Type 0) : Type 1 where
  pub Cache : Type 0
  pub new : ℕ → Cache
  pub add : Key → V → Cache → Cache
  pub get : Key → Cache → Option V × Cache
  pub content : Cache → Key → Option V
  pub new_empty : (size : ℕ) (k : Key) → content (new size) k ≡ none
  pub get_value : (k : Key) (c : Cache) → (get k c).0 ≡ content c k
  pub get_keeps : (k j : Key) (c : Cache) → content (get k c).1 j ≡ content c j
  pub add_self : (k : Key) (v : V) (c : Cache) → content (add k v c) k ≡ some v
  -- An addition may push another entry out.
  pub add_other :
      (k j : Key) (v : V) (c : Cache)
      → k ≢ j
      → (content (add k v c) j ≡ none) ⊎ (content (add k v c) j ≡ content c j)
