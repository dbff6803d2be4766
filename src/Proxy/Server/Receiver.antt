-- ===== src/Proxy/Server/Receiver.antt =====
-- What a receiver of the difference of two endpoint lists ends up with.
use mini_k8s.Base.{
  if◌then◌else◌, ◌==◌, nat_Eq, string_Eq, Bool-cases, Option-cases, Map, lookup, has-lookup, IsMap,
  String, ◌≡◌, refl, inl, inr, Bool, true, Option, none, some, List, [],
}
use mini_k8s.Proxy.Server.{
  Endpoint, is_endpoint_ports_equal, ip_map, Changes, diff_old, diff_olds, diff_new, diff_news,
  calculate_changes,
}
use mini_k8s.Proxy.Server.Diff.{
  Ports, is_deleted, after_additions, patched, SamePorts, ip_map-IsMap, SameAt, patched-SameAt,
  diff_olds_elsewhere, diff_olds_at, diff_news_elsewhere, diff_news_at, after_additions-append,
}

string_beq_refl : (s : String) → (s == s) ≡ true
string_beq_refl s = (string_Eq.beq_iff s s).1 refl

-- Nothing has been found to differ.
abbrev unchanged : Bool → Changes
unchanged diff = record { diff = diff; additions = []; deletions = [] }

module _ (ip : String) (old new : Map String Ports) (diff : Bool) where
  by_stage :
      (c c' : Changes) (before after : Option Ports)
      → SameAt ip c c'
      → SamePorts (patched c' ip before) after
      → SamePorts (patched c ip before) after
  by_stage c c' before after s h = rw (patched-SameAt ip c c' before s) h

  appeared :
      (c : Changes) (ports : Ports)
      → lookup ip old ≡ none
      → SamePorts (patched (diff_new old ip ports c) ip none) (some ports)
  unfolding patched diff_new
  appeared c ports e =
      rw
        (
          e,
          diff_new,
          patched,
          after_additions-append ip c.additions (record { ip = ip; ports = ports })
              (if is_deleted ip c.deletions then none else none),
          string_beq_refl ip,
        )
        (inl refl)

  vanished :
      (ports : Ports)
      → lookup ip new ≡ none
      → SamePorts (patched (diff_old new ip ports (unchanged diff)) ip (some ports)) none
  unfolding patched diff_old after_additions is_deleted
  vanished ports e = rw (e, diff_old, patched, string_beq_refl ip, is_deleted) tt

  stayed :
      (ports new_ports : Ports)
      → lookup ip new ≡ some new_ports
      → SamePorts
          (patched (diff_old new ip ports (unchanged diff)) ip (some ports))
          (some new_ports)
  unfolding patched diff_old after_additions is_deleted
  stayed ports new_ports e = elim (Bool-cases (is_endpoint_ports_equal ports new_ports)) [
    | inl same ↦ rw (e, diff_old, patched, same) (inr same)
    | inr differ ↦ rw (e, diff_old, patched, differ, string_beq_refl ip, after_additions) (inl refl)
  ]

  diff_new-present :
      (c : Changes) (ports p : Ports) → lookup ip old ≡ some p → diff_new old ip ports c ≡ c
  unfolding diff_new
  diff_new-present c ports p e = rw (e, diff_new) refl

  -- The difference of two maps, at one address.
  maps-SamePorts :
      IsMap old
      → IsMap new
      → SamePorts
          (patched (diff_news old new (diff_olds new old (unchanged diff))) ip (lookup ip old))
          (lookup ip new)
  maps-SamePorts o n = elim (Option-cases (lookup ip old)) [
    | inl e ↦
        let s = diff_olds_elsewhere ip new old (unchanged diff) (has-lookup ip old e) in
        elim (Option-cases (lookup ip new)) [
          | inl f ↦
              rw (e, f)
                (by_stage (diff_news old new (diff_olds new old (unchanged diff)))
                  (diff_olds new old (unchanged diff)) none none
                  (diff_news_elsewhere ip old new (diff_olds new old (unchanged diff))
                    (has-lookup ip new f))
                  (by_stage (diff_olds new old (unchanged diff)) (unchanged diff) none none s
                    (unfold patched after_additions is_deleted in tt)))
          | inr (p, f) ↦
              rw (e, f)
                (by_stage (diff_news old new (diff_olds new old (unchanged diff)))
                  (diff_new old ip p (diff_olds new old (unchanged diff))) none (some p)
                  (diff_news_at ip old new (diff_olds new old (unchanged diff)) p n f)
                  (appeared (diff_olds new old (unchanged diff)) p e))
        ]
    | inr (q, e) ↦
        let s = diff_olds_at ip new old (unchanged diff) q o e in
        elim (Option-cases (lookup ip new)) [
          | inl f ↦
              rw (e, f)
                (by_stage (diff_news old new (diff_olds new old (unchanged diff)))
                  (diff_olds new old (unchanged diff)) (some q) none
                  (diff_news_elsewhere ip old new (diff_olds new old (unchanged diff))
                    (has-lookup ip new f))
                  (by_stage (diff_olds new old (unchanged diff))
                    (diff_old new ip q (unchanged diff)) (some q) none s (vanished q f)))
          | inr (p, f) ↦
              rw (e, f)
                (by_stage (diff_news old new (diff_olds new old (unchanged diff)))
                  (diff_new old ip p (diff_olds new old (unchanged diff))) (some q) (some p)
                  (diff_news_at ip old new (diff_olds new old (unchanged diff)) p n f)
                  (rw (diff_new-present (diff_olds new old (unchanged diff)) p q e) (
                    by_stage (diff_olds new old (unchanged diff))
                      (diff_old new ip q (unchanged diff)) (some q) (some p) s (stayed q p f))))
        ]
  ]

-- For every address: a receiver that has the old endpoints, deletes the deletions of the
-- difference and then makes its additions, has the address afterwards exactly when the new
-- endpoints have it, with the ports of the new endpoints or with ports that
-- `isEndpointPortsEqual` takes for the same. For an address that a list names twice the last
-- entry counts, on both sides.
pub calculate_changes-SamePorts :
    (ip : String) (old new : List Endpoint) (diff : Bool)
    → SamePorts
        (patched (calculate_changes diff old new) ip (lookup ip (ip_map old [])))
        (lookup ip (ip_map new []))
unfolding calculate_changes
calculate_changes-SamePorts ip old new diff =
    maps-SamePorts ip (ip_map old []) (ip_map new []) diff (ip_map-IsMap old [] tt)
      (ip_map-IsMap new [] tt)
