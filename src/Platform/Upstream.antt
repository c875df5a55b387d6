-- ===== src/Platform/Upstream.antt =====
-- The servers that the program chooses or writes back never point at the machine itself.
use m_host.Common.{
  Text, Bool, false, not, List, [], ◌∷◌, ◌≡◌, ◌≢◌, ◌⊎◌, inl, inr, refl, arith, any, filter,
}
use m_host.Core.Ip.{IpAddr}
use m_host.Core.OriginalDns.{
  SocketText, is_local_resolver, OriginalDns, manual_servers, dhcp_empty, restore_argv, empty_word,
  empty_if_none, public_only,
}
use m_host.Platform.Resolvers.{
  select_upstream, any_local_resolver, tier3_fallback, first_tier, without_local,
}

any-filter-not : (p : Text → Bool) (xs : List Text) → any p (filter (λ x. not (p x)) xs) ≡ false
any-filter-not p [] = refl
any-filter-not p (x ∷ xs) = ground (arith, any-filter-not p xs)

module _ (A : Type 0) ⦃ip : IpAddr A⦄ ⦃socket : SocketText A⦄ where
  abbrev Public : List Text → Type 0
  Public servers = (servers ≢ []) × (any (λ s. is_local_resolver A s) servers ≡ false)

  first_tier-Public :
      (tier1 tier2 : List Text)
      → any (λ s. is_local_resolver A s) tier1 ≡ false
      → any (λ s. is_local_resolver A s) tier2 ≡ false
      → any (λ s. is_local_resolver A s) tier3_fallback ≡ false
      → Public (first_tier tier1 tier2).0
  first_tier-Public (s ∷ rest) tier2 h k fallback = (λ e. cc, h)
  first_tier-Public [] (s ∷ rest) h k fallback = (λ e. cc, k)
  first_tier-Public [] [] h k fallback = (λ e. cc, fallback)

  -- Where the public servers of the last tier are not local, the upstream that is chosen is not empty
  -- and no server in it is local, whatever the two commands report.
  pub select_upstream-public :
      any_local_resolver A tier3_fallback ≡ false
      → (tier1 tier2 : List Text)
      → ((select_upstream A tier1 tier2).0 ≢ [])
        × (any_local_resolver A (select_upstream A tier1 tier2).0 ≡ false)
  unfolding select_upstream any_local_resolver
  select_upstream-public fallback tier1 tier2 =
      first_tier-Public (without_local A tier1) (without_local A tier2)
        (any-filter-not (λ s. is_local_resolver A s) tier1)
        (any-filter-not (λ s. is_local_resolver A s) tier2) fallback

  abbrev Restorable : List Text → Type 0
  Restorable argv =
      (argv ≡ empty_word ∷ []) ⊎ ((argv ≢ []) × (any (λ s. is_local_resolver A s) argv ≡ false))

  empty_if_none-Restorable :
      (servers : List Text)
      → any (λ s. is_local_resolver A s) servers ≡ false
      → Restorable (empty_if_none servers)
  empty_if_none-Restorable [] h = inl refl
  empty_if_none-Restorable (s ∷ rest) h = inr (λ e. cc, h)

  -- What is written back as the servers of the system is the single word `Empty`, or a list that is
  -- not empty and has no local server.
  pub restore_argv-public :
      (o : OriginalDns)
      → (restore_argv A o ≡ empty_word ∷ [])
        ⊎ ((restore_argv A o ≢ []) × (any (λ s. is_local_resolver A s) (restore_argv A o) ≡ false))
  unfolding restore_argv
  restore_argv-public (manual_servers servers) =
      empty_if_none-Restorable (public_only A servers)
        (any-filter-not (λ s. is_local_resolver A s) servers)
  restore_argv-public dhcp_empty = inl refl
