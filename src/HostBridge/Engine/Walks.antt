-- ===== src/HostBridge/Engine/Walks.antt =====
-- The walk of InvokeNoqeriExtern over the map of providers, whose order Go leaves open.
use mathlib.Core.List.{Perm, Mem, mem-cons, not-mem-nil}
use mathlib.Core.List.Perm
use mathlib.Core.Logic.Or
use noqeri_registry.Prelude.{
  ◌≡◌, refl, sym, ap, ◌∙◌, Bool, true, false, Bool-cases, Option-cases, inl, inr, List, [], ◌∷◌,
  Option, none, some, any,
}
use noqeri_registry.Prelude.Text.{Bytes}
use noqeri_registry.HostBridge.Http.Providers.{allowed_host}
use noqeri_registry.HostBridge.Http.Hosts.{allowed_host_unique}
use noqeri_registry.HostBridge.Engine.Defs.{Outside, find_provider}

abbrev pub is_found : Option Bytes → Bool
is_found none = false
is_found (some p) = true

module _ (out : Outside) (hostname : Bytes) where
  abbrev is_allowed : Bytes → Bool
  is_allowed name = allowed_host out.web.unicode name hostname

  find_provider-mem :
      (p : Bytes) (walk : List Bytes)
      → find_provider out hostname walk ≡ some p
      → Mem p walk × (is_allowed p ≡ true)
  unfolding find_provider
  find_provider-mem p [] h = absurd (cc h)
  find_provider-mem p (n ∷ walk) h = elim (Bool-cases (is_allowed n)) [
    | inl good ↦
        let e : n ≡ p = cc (rw good at h) in
        (mem-cons.1 (Or.inl (sym e)), ap is_allowed (sym e) ∙ good)
    | inr bad ↦
        let (m, good) = find_provider-mem p walk (rw bad at h) in (mem-cons.1 (Or.inr m), good)
  ]

  find_provider_known :
      (p : Bytes) (walk : List Bytes)
      → Mem p walk
      → is_allowed p ≡ true
      → find_provider out hostname walk ≡ some p
  unfolding find_provider
  find_provider_known p [] m h = absurd (not-mem-nil m)
  find_provider_known p (n ∷ walk) m h = elim (Bool-cases (is_allowed n)) [
    | inl good ↦ rw good (ap some (allowed_host_unique out.web.unicode n p hostname good h))
    | inr bad ↦ rw bad (
        Or.elim (hlevel) (mem-cons.0 m) (λ e. absurd (cc (bad, ap is_allowed e, h)))
          (λ later. find_provider_known p walk later h))
  ]

  find_provider-any :
      (walk : List Bytes) → is_found (find_provider out hostname walk) ≡ any is_allowed walk
  unfolding find_provider
  find_provider-any [] = refl
  find_provider-any (n ∷ walk) = elim (Bool-cases (is_allowed n)) [
    | inl good ↦ rw good refl
    | inr bad ↦ rw bad (find_provider-any walk)
  ]

  -- InvokeNoqeriExtern finds a provider for a host exactly if one of those that it walks over allows
  -- the host, and it finds the same one in whatever order the walk goes.
  pub find_provider_unordered :
      (walk walk' : List Bytes)
      → Perm walk walk'
      → (is_found (find_provider out hostname walk) ≡ any is_allowed walk)
        × (find_provider out hostname walk ≡ find_provider out hostname walk')
  find_provider_unordered walk walk' p = (
    find_provider-any walk,
    elim (Option-cases (find_provider out hostname walk)) [
      | inr (n, found) ↦
          let (m, good) = find_provider-mem n walk found in
          found ∙ sym (find_provider_known n walk' ((Perm.mem_iff p).0 m) good)
      | inl missing ↦ elim (Option-cases (find_provider out hostname walk')) [
        | inl missing' ↦ missing ∙ sym missing'
        | inr (n, found) ↦
            let (m, good) = find_provider-mem n walk' found in
            absurd (cc (missing, find_provider_known n walk ((Perm.mem_iff p).1 m) good))
      ]
    ],
  )
