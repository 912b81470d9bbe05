-- ===== src/Misc/Mdns.antt =====
-- `pk_mdns_init` of src/lib/mdns.c.
use vedruino.Base.{
  ℕ, ◌≡◌, refl, ◌⊎◌, inl, inr, Bool, true, false, Option, none, some, List, M, pure, stop, call,
  ◌>>=◌, Halt, Ends,
}

-- The calls of ESP-IDF; `none` and `false` are an error. `nvs_size` and `nvs_string` are `nvs_get_str` of
-- the name "hostname", without a buffer and with one.
pub record Platform : Type 1 where
  pub World : Type 0
  pub nvs_flash_init : World → Bool × World
  pub nvs_open : World → Option ℕ × World
  pub nvs_size : (handle : ℕ) → World → Option ℕ × World
  pub nvs_string : (handle size : ℕ) → World → Option (List ℕ) × World
  pub mdns_init : World → Bool × World
  pub mdns_hostname_set : (hostname : List ℕ) → World → Bool × World

module _ (p : Platform) where
  set_hostname : List ℕ → Bool → M p.World Bool
  set_hostname hostname false = pure false
  set_hostname hostname true = call (p.mdns_hostname_set hostname)

  -- Where the second call has failed, the characters of the buffer have no value.
  use_hostname : Option (List ℕ) → M p.World Bool
  unfolding set_hostname
  use_hostname none = stop Halt.undefined_read
  use_hostname (some hostname) = call p.mdns_init >>= set_hostname hostname

  -- Where the first call has failed, `hostname_size` has no value.
  read_hostname : (handle : ℕ) → Option ℕ → M p.World Bool
  unfolding use_hostname
  read_hostname handle none = stop Halt.undefined_read
  read_hostname handle (some size) = call (p.nvs_string handle size) >>= use_hostname

  with_nvs : Option ℕ → M p.World Bool
  unfolding read_hostname
  with_nvs none = pure false
  with_nvs (some handle) = call (p.nvs_size handle) >>= read_hostname handle

  after_flash_init : Bool → M p.World Bool
  unfolding with_nvs
  after_flash_init false = pure false
  after_flash_init true = call p.nvs_open >>= with_nvs

  unfoldable pub pk_mdns_init : M p.World Bool
  unfolding after_flash_init
  pk_mdns_init = call p.nvs_flash_init >>= after_flash_init

  -- Where the call returns true, the host name is the one that was read.
  abbrev pub IsNamed : Bool → p.World → Type 0
  IsNamed false w = Unit {0}
  IsNamed true w =
      (handle : ℕ) × (size : ℕ) × (name : List ℕ) × (v : p.World) × (u : p.World) × ((p.nvs_string
          handle size v).0
        ≡ some name)
      × (p.mdns_hostname_set name u ≡ (true, w))

  -- Where it does not return, the host name could not be read.
  abbrev pub IsUnread : Halt → p.World → Type 0
  IsUnread h w =
      (h ≡ Halt.undefined_read)
      × ((handle : ℕ) × (v : p.World) × (((p.nvs_size handle v).0 ≡ none)
            ⊎ ((size : ℕ) × ((p.nvs_string handle size v).0 ≡ none))))

  set_hostname-IsNamed :
      (handle size : ℕ) (name : List ℕ) (v : p.World)
      → (p.nvs_string handle size v).0 ≡ some name
      → (ok : Bool) (w : p.World) → Ends IsNamed IsUnread (set_hostname name ok w)
  unfolding set_hostname
  set_hostname-IsNamed handle size name v e false w = tt
  set_hostname-IsNamed handle size name v e true w = named (p.mdns_hostname_set name w) refl
    where
      named : (r : Bool × p.World) → p.mdns_hostname_set name w ≡ r → IsNamed r.0 r.1
      named (false, u) x = tt
      named (true, u) x = (handle, size, name, v, w, e, x)

  use_hostname-IsNamed :
      (handle size : ℕ) (v : p.World) (r : Option (List ℕ)) (w : p.World)
      → (p.nvs_string handle size v).0 ≡ r
      → Ends IsNamed IsUnread (use_hostname r w)
  unfolding use_hostname
  use_hostname-IsNamed handle size v none w e = (refl, (handle, v, inr (size, e)))
  use_hostname-IsNamed handle size v (some name) w e =
      set_hostname-IsNamed handle size name v e (p.mdns_init w).0 (p.mdns_init w).1

  read_hostname-IsNamed :
      (handle : ℕ) (v : p.World) (r : Option ℕ) (w : p.World)
      → (p.nvs_size handle v).0 ≡ r
      → Ends IsNamed IsUnread (read_hostname handle r w)
  unfolding read_hostname
  read_hostname-IsNamed handle v none w e = (refl, (handle, v, inl e))
  read_hostname-IsNamed handle v (some size) w e =
      use_hostname-IsNamed handle size w (p.nvs_string handle size w).0
        (p.nvs_string handle size w).1 refl

  with_nvs-IsNamed : (r : Option ℕ) (w : p.World) → Ends IsNamed IsUnread (with_nvs r w)
  unfolding with_nvs
  with_nvs-IsNamed none w = tt
  with_nvs-IsNamed (some handle) w =
      read_hostname-IsNamed handle w (p.nvs_size handle w).0 (p.nvs_size handle w).1 refl

  after_flash_init-IsNamed :
      (ok : Bool) (w : p.World) → Ends IsNamed IsUnread (after_flash_init ok w)
  unfolding after_flash_init
  after_flash_init-IsNamed false w = tt
  after_flash_init-IsNamed true w = with_nvs-IsNamed (p.nvs_open w).0 (p.nvs_open w).1

  -- Where `pk_mdns_init` returns true, the host name was read from NVS and has been set. Where it does not
  -- return, it has used the host name or its size although NVS did not give it.
  pub pk_mdns_init-IsNamed : (w : p.World) → Ends IsNamed IsUnread (pk_mdns_init w)
  unfolding pk_mdns_init
  pk_mdns_init-IsNamed w = after_flash_init-IsNamed (p.nvs_flash_init w).0 (p.nvs_flash_init w).1
