-- ===== src/Net/Clients.antt =====
-- Addresses up to what `sockaddr_cmp` of udpchat/src/util/net.c tells apart: the clients.
use mathlib.Core.Quot
use mathlib.Core.Quot.{Quot, Quot-set}
use mathlib.Core.Path.{fun_ext}
use csockets.Base.{ℕ, ◌≡◌, refl, ◌↔◌, sym, ap, ◌∙◌, Ordering}
use csockets.Net.{Storage, sockaddr_cmp}
use csockets.Net.Compare.{flip, sockaddr_cmp-endpoint, sockaddr_cmp-eq_iff, sockaddr_cmp-flip}

module _ (len : ℕ) where
  abbrev pub Same : Storage → Storage → Type 0
  Same a b = sockaddr_cmp a b len ≡ Ordering.eq

  abbrev pub Client : Type 0
  Client = Quot Same

  abbrev pub client : Storage → Client
  client = Quot.mk

  Ordering-set : IsSet Ordering
  Ordering-set = hlevel

  respects_right : (a b c : Storage) → Same b c → sockaddr_cmp a b len ≡ sockaddr_cmp a c len
  respects_right a b c h =
      rw
        (
          sockaddr_cmp-endpoint a b len,
          sockaddr_cmp-endpoint a c len,
          (sockaddr_cmp-eq_iff b c len).0 h,
        )
        refl

  respects_left : (a b c : Storage) → Same a b → sockaddr_cmp a c len ≡ sockaddr_cmp b c len
  respects_left a b c h =
      rw
        (
          sockaddr_cmp-endpoint a c len,
          sockaddr_cmp-endpoint b c len,
          (sockaddr_cmp-eq_iff a b len).0 h,
        )
        refl

  -- The comparison of two clients, by any of their addresses.
  pub client_cmp : Client → Client → Ordering
  client_cmp =
      Quot.lift (hlevel Ordering-set)
        (λ a. Quot.lift Ordering-set (λ b. sockaddr_cmp a b len) (λ b c. respects_right a b c))
        (λ a b h. fun_ext (Quot.ind (λ _. hlevel Ordering-set) (λ c. respects_left a b c h)))

  cmp-client : (a b : Storage) → client_cmp (client a) (client b) ≡ sockaddr_cmp a b len
  unfolding client_cmp
  cmp-client a b = refl

  -- The comparison is one of clients, which are addresses up to its result 0: the result is the same
  -- whatever addresses stand for two clients, two addresses give 0 exactly if they stand for the same
  -- client, and the two swapped give the opposite.
  pub sockaddr_cmp-client :
      (a b : Storage)
      → (client_cmp (client a) (client b) ≡ sockaddr_cmp a b len)
        × ((sockaddr_cmp a b len ≡ Ordering.eq) ↔ (client a ≡ client b))
        × (client_cmp (client b) (client a) ≡ flip (sockaddr_cmp a b len))
  sockaddr_cmp-client a b = (
    cmp-client a b,
    (
      λ h. Quot.sound h,
      λ e.
          sym (cmp-client a b)
          ∙ (ap (λ x. client_cmp x (client b)) e
              ∙ (cmp-client b b ∙ (sockaddr_cmp-eq_iff b b len).1 refl)),
    ),
    cmp-client b a ∙ sockaddr_cmp-flip a b len,
  )
