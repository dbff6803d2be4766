-- ===== src/Proxy/Server/Diff.antt =====
-- What a receiver of the difference of two endpoint lists ends up with.
use mini_k8s.Base.{
  if◌then◌else◌, ◌==◌, nat_Eq, string_Eq, Bool-cases, Option-cases, Map, lookup, insert, has, IsMap,
  insert-IsMap, String, ◌≡◌, refl, ap, ◌∙◌, ◌⊎◌, inl, inr, Bool, true, false, ◌||◌, Option, none,
  some, List, [], ◌∷◌, ◌++◌, arith,
}
use mini_k8s.Proxy.Server.{
  EndpointPort, Endpoint, is_endpoint_ports_equal, ip_map, Changes, diff_old, diff_olds, diff_new,
  diff_news,
}

abbrev pub Ports : Type 0
Ports = List EndpointPort

-- The address is among those deleted.
unfoldable pub is_deleted : String → List Endpoint → Bool
is_deleted ip [] = false
is_deleted ip (d ∷ ds) = d.ip == ip || is_deleted ip ds

-- The ports of the address after the additions, if it had those of `before`.
unfoldable pub after_additions :
    String → List Endpoint → Option (List EndpointPort) → Option (List EndpointPort)
after_additions ip [] before = before
after_additions ip (a ∷ additions) before =
    after_additions ip additions (if a.ip == ip then some a.ports else before)

-- A receiver deletes first and then adds, as `HandleServiceEndpointsUpdate` does.
unfoldable pub patched : Changes → String → Option (List EndpointPort) → Option (List EndpointPort)
patched c ip before =
    after_additions ip c.additions (if is_deleted ip c.deletions then none else before)

-- Both lack the address, or both have it with ports that the code takes for the same.
abbrev pub SamePorts : Option (List EndpointPort) → Option (List EndpointPort) → Type 0
SamePorts none none = Unit
SamePorts (some a) (some b) = (a ≡ b) ⊎ (is_endpoint_ports_equal a b ≡ true)
SamePorts _ _ = ⊥

pub is_deleted-append :
    (ip : String) (ds : List Endpoint) (d : Endpoint)
    → is_deleted ip (ds ++ d ∷ []) ≡ (d.ip == ip || is_deleted ip ds)
unfolding is_deleted
is_deleted-append ip [] d = refl
is_deleted-append ip (x ∷ ds) d = ground (arith, is_deleted-append ip ds d)

pub after_additions-append :
    (ip : String) (xs : List Endpoint) (a : Endpoint) (before : Option Ports)
    → after_additions ip (xs ++ a ∷ []) before
      ≡ (if a.ip == ip then some a.ports else after_additions ip xs before)
unfolding after_additions
after_additions-append ip [] a before = refl
after_additions-append ip (x ∷ xs) a before =
    after_additions-append ip xs a (if x.ip == ip then some x.ports else before)

pub ip_map-IsMap : (eps : List Endpoint) (m : Map String Ports) → IsMap m → IsMap (ip_map eps m)
unfolding ip_map
ip_map-IsMap [] m h = h
ip_map-IsMap (ep ∷ eps) m h =
    ip_map-IsMap eps (insert ep.ip ep.ports m) (insert-IsMap ep.ip ep.ports m h)

module _ (ip : String) where
  -- Two stages of the loops agree at the address.
  pub record SameAt (c c' : Changes) : Type 0 where
    deletions : is_deleted ip c.deletions ≡ is_deleted ip c'.deletions
    additions :
        (b : Option Ports) → after_additions ip c.additions b ≡ after_additions ip c'.additions b

  SameAt-trans : (c c' c'' : Changes) → SameAt c c' → SameAt c' c'' → SameAt c c''
  SameAt-trans c c' c'' s t = record {
    deletions = s.deletions ∙ t.deletions;
    additions = λ b. s.additions b ∙ t.additions b;
  }

  SameAt-refl : (c : Changes) → SameAt c c
  SameAt-refl c = record { deletions = refl; additions = λ b. refl }

  pub patched-SameAt :
      (c c' : Changes) (b : Option Ports) → SameAt c c' → patched c ip b ≡ patched c' ip b
  unfolding patched
  patched-SameAt c c' b s =
      s.additions (if is_deleted ip c.deletions then none else b)
      ∙ ap (λ d. after_additions ip c'.additions (if d then none else b)) s.deletions

  -- An entry appended to both lists has the same effect on both stages.
  append-SameAt :
      (d d' : Bool) (as_ as' ds ds' : List Endpoint) (x y : Endpoint)
      → SameAt
          (record { diff = d; additions = as_; deletions = ds })
          (record { diff = d'; additions = as'; deletions = ds' })
      → (is_deleted ip (ds ++ x ∷ []) ≡ is_deleted ip (ds' ++ x ∷ []))
        × ((b : Option Ports)
            → after_additions ip (as_ ++ y ∷ []) b ≡ after_additions ip (as' ++ y ∷ []) b)
  append-SameAt d d' as_ as' ds ds' x y s = (
    ground (arith, is_deleted-append ip ds x, is_deleted-append ip ds' x, s.deletions),
    λ b. ground (
      arith,
      after_additions-append ip as_ y b,
      after_additions-append ip as' y b,
      s.additions b,
    ),
  )

  module _ (other : Map String Ports) where
    diff_old_elsewhere :
        (k : String) (ports : Ports) (c : Changes)
        → (k == ip) ≡ false
        → SameAt (diff_old other k ports c) c
    unfolding diff_old
    diff_old_elsewhere k ports c h = elim (Option-cases (lookup k other)) [
      | inl e ↦
          rw (e, diff_old)
            record {
              deletions =
                  ground
                    (arith, is_deleted-append ip c.deletions (record { ip = k; ports = ports }));
              additions = λ b. refl;
            }
      | inr (new_ports, e) ↦
          rw (e, diff_old)
            elim (Bool-cases (is_endpoint_ports_equal ports new_ports)) [
              | inl same ↦ rw same (SameAt-refl c)
              | inr differ ↦ rw differ record {
                deletions =
                    ground
                      (arith, is_deleted-append ip c.deletions (record { ip = k; ports = ports }));
                additions = λ b. ground (
                  arith,
                  after_additions-append ip c.additions (record { ip = k; ports = new_ports }) b,
                );
              }
            ]
    ]

    diff_old-SameAt :
        (ports : Ports) (c c' : Changes)
        → SameAt c c'
        → SameAt (diff_old other ip ports c) (diff_old other ip ports c')
    unfolding diff_old
    diff_old-SameAt ports c c' s = elim (Option-cases (lookup ip other)) [
      | inl e ↦
          rw (e, diff_old)
            record {
              deletions =
                  (append-SameAt c.diff c'.diff c.additions c'.additions c.deletions c'.deletions
                    (record { ip = ip; ports = ports }) (record { ip = ip; ports = ports }) s).0;
              additions = s.additions;
            }
      | inr (new_ports, e) ↦
          rw (e, diff_old)
            elim (Bool-cases (is_endpoint_ports_equal ports new_ports)) [
              | inl same ↦ rw same s
              | inr differ ↦ rw differ (
                  let p =
                    append-SameAt c.diff c'.diff c.additions c'.additions c.deletions c'.deletions
                      (record { ip = ip; ports = ports }) (record { ip = ip; ports = new_ports })
                      s in
                  record { deletions = p.0; additions = p.1 })
            ]
    ]

    pub diff_olds_elsewhere :
        (old : Map String Ports) (c : Changes)
        → has ip old ≡ false
        → SameAt (diff_olds other old c) c
    unfolding diff_olds has
    diff_olds_elsewhere [] c h = SameAt-refl c
    diff_olds_elsewhere ((k, p) ∷ old) c h =
        SameAt-trans (diff_olds other old (diff_old other k p c)) (diff_old other k p c) c
          (diff_olds_elsewhere old (diff_old other k p c) (ground arith))
          (diff_old_elsewhere k p c (ground arith))

    pub diff_olds_at :
        (old : Map String Ports) (c : Changes) (ports : Ports)
        → IsMap old
        → lookup ip old ≡ some ports
        → SameAt (diff_olds other old c) (diff_old other ip ports c)
    unfolding diff_olds lookup
    diff_olds_at [] c ports m h = cc
    diff_olds_at ((k, p) ∷ old) c ports m h = elim (Bool-cases (k == ip)) [
      | inl same ↦
          let key : k ≡ ip = (string_Eq.beq_iff k ip).0 same in
          let value : p ≡ ports = ground arith in
          rw (key, value)
            (diff_olds_elsewhere old (diff_old other ip ports c) (ground (arith, m.0)))
      | inr apart ↦
          SameAt-trans (diff_olds other old (diff_old other k p c))
            (diff_old other ip ports (diff_old other k p c)) (diff_old other ip ports c)
            (diff_olds_at old (diff_old other k p c) ports m.1 (ground arith))
            (diff_old-SameAt ports (diff_old other k p c) c (diff_old_elsewhere k p c apart))
    ]

    diff_new_elsewhere :
        (k : String) (ports : Ports) (c : Changes)
        → (k == ip) ≡ false
        → SameAt (diff_new other k ports c) c
    unfolding diff_new
    diff_new_elsewhere k ports c h = elim (Option-cases (lookup k other)) [
      | inl e ↦
          rw (e, diff_new)
            record {
              deletions = refl;
              additions = λ b. ground (
                arith,
                after_additions-append ip c.additions (record { ip = k; ports = ports }) b,
              );
            }
      | inr (_, e) ↦ rw (e, diff_new) (SameAt-refl c)
    ]

    diff_new-SameAt :
        (ports : Ports) (c c' : Changes)
        → SameAt c c'
        → SameAt (diff_new other ip ports c) (diff_new other ip ports c')
    unfolding diff_new
    diff_new-SameAt ports c c' s = elim (Option-cases (lookup ip other)) [
      | inl e ↦
          rw (e, diff_new)
            record {
              deletions = s.deletions;
              additions =
                  (append-SameAt c.diff c'.diff c.additions c'.additions c.deletions c'.deletions
                    (record { ip = ip; ports = ports }) (record { ip = ip; ports = ports }) s).1;
            }
      | inr (_, e) ↦ rw (e, diff_new) s
    ]

    pub diff_news_elsewhere :
        (new : Map String Ports) (c : Changes)
        → has ip new ≡ false
        → SameAt (diff_news other new c) c
    unfolding diff_news has
    diff_news_elsewhere [] c h = SameAt-refl c
    diff_news_elsewhere ((k, p) ∷ new) c h =
        SameAt-trans (diff_news other new (diff_new other k p c)) (diff_new other k p c) c
          (diff_news_elsewhere new (diff_new other k p c) (ground arith))
          (diff_new_elsewhere k p c (ground arith))

    pub diff_news_at :
        (new : Map String Ports) (c : Changes) (ports : Ports)
        → IsMap new
        → lookup ip new ≡ some ports
        → SameAt (diff_news other new c) (diff_new other ip ports c)
    unfolding diff_news lookup
    diff_news_at [] c ports m h = cc
    diff_news_at ((k, p) ∷ new) c ports m h = elim (Bool-cases (k == ip)) [
      | inl same ↦
          let key : k ≡ ip = (string_Eq.beq_iff k ip).0 same in
          let value : p ≡ ports = ground arith in
          rw (key, value)
            (diff_news_elsewhere new (diff_new other ip ports c) (ground (arith, m.0)))
      | inr apart ↦
          SameAt-trans (diff_news other new (diff_new other k p c))
            (diff_new other ip ports (diff_new other k p c)) (diff_new other ip ports c)
            (diff_news_at new (diff_new other k p c) ports m.1 (ground arith))
            (diff_new-SameAt ports (diff_new other k p c) c (diff_new_elsewhere k p c apart))
    ]
