-- ===== src/Watcher/Create/Acted.antt =====
-- kubeUpdate.go, `CreateSecurityPolicy`: no rule is left without an action.
use kube_armor.Base.{
  Bool, List, Option, false, is_empty, map, not, some, true, ◌&&◌, ◌≡◌, ◌∷◌, [], arith, refl,
}
use kube_armor.Base.Ensures.{bind-Ensures, some-Ensures}
use kube_armor.Base.Text.{Text}
use kube_armor.Policy.{
  CapabilitiesCapabilityType, FileDirectoryType, FilePathType, FilePatternType, NetworkProtocolType,
  ProcessDirectoryType, ProcessPathType, ProcessPatternType, SecurityPolicy, SecuritySpec,
}
use kube_armor.Watcher.Create.{
  CrdSpec, create_rules, create_security_policy, create_selector, spec_action,
}
use kube_armor.Watcher.Create.Fill.{
  fill_file, fill_file_directory, fill_file_path, fill_file_pattern, fill_list, fill_one_capability,
  fill_process, fill_process_directory, fill_process_path, fill_process_pattern, fill_protocol,
}
use kube_armor.Watcher.Points.{PolicyType}

-- Every rule of the list has an action.
unfoldable pub acted : {A : Type 0} → (A → Text) → List A → Bool
acted action [] = true
acted action (x ∷ xs) = not (is_empty (action x)) && acted action xs

unfoldable pub Acted : SecuritySpec → Type 0
Acted s =
    (acted (λ (r : ProcessPathType). r.action) s.process.match_paths ≡ true)
    × ((acted (λ (r : ProcessDirectoryType). r.action) s.process.match_directories ≡ true)
        × ((acted (λ (r : ProcessPatternType). r.action) s.process.match_patterns ≡ true)
            × ((acted (λ (r : FilePathType). r.action) s.file.match_paths ≡ true)
                × ((acted (λ (r : FileDirectoryType). r.action) s.file.match_directories ≡ true)
                    × ((acted (λ (r : FilePatternType). r.action) s.file.match_patterns ≡ true)
                        × ((acted (λ (r : NetworkProtocolType). r.action) s.network ≡ true)
                            × (acted (λ (r : CapabilitiesCapabilityType). r.action) s.capabilities
                                ≡ true)))))))

acted-map :
    {A : Type 0} (action : A → Text) (f : A → A) (xs : List A)
    → ((x : A) → is_empty (action (f x)) ≡ false)
    → acted action (map f xs) ≡ true
unfolding acted
acted-map action f [] h = refl
acted-map action f (x ∷ xs) h = ground (arith, h x, acted-map action f xs h)

fill_list-full :
    {A : Type 0} (own group top : List A)
    → is_empty top ≡ false
    → is_empty (fill_list own group top) ≡ false
unfolding fill_list
fill_list-full own group top h = ground (arith, h)

spec_action-full : (action : Text) → is_empty (spec_action action) ≡ false
unfolding spec_action
spec_action-full action = ground arith

-- Every rule on processes, files, networks and capabilities of a policy that CreateSecurityPolicy
-- creates has an action.
pub create_security_policy-Acted :
    (type : PolicyType) (namespace name : Text) (cluster : Option (List Text)) (crd : CrdSpec)
    (p : SecurityPolicy)
    → create_security_policy type namespace name cluster crd ≡ some p
    → Acted p.spec
unfolding create_security_policy create_rules Acted fill_process fill_file fill_process_path
    fill_process_directory fill_process_pattern fill_file_path fill_file_directory fill_file_pattern
    fill_protocol fill_one_capability
create_security_policy-Acted type namespace name cluster crd =
    let C : SecurityPolicy → Type 0 = λ p. Acted p.spec in
    let full : (own group : Text)
        → is_empty (fill_list own group (spec_action crd.defaults.action)) ≡ false =
      λ own group.
        fill_list-full own group (spec_action crd.defaults.action)
          (spec_action-full crd.defaults.action) in
    bind-Ensures C (create_selector type namespace cluster crd) _ (λ selector e. some-Ensures C _ (
      acted-map _ _ _ (λ r. full r.action crd.process_defaults.action),
      (
        acted-map _ _ _ (λ r. full r.action crd.process_defaults.action),
        (
          acted-map _ _ _ (λ r. full r.action crd.process_defaults.action),
          (
            acted-map _ _ _ (λ r. full r.action crd.file_defaults.action),
            (
              acted-map _ _ _ (λ r. full r.action crd.file_defaults.action),
              (
                acted-map _ _ _ (λ r. full r.action crd.file_defaults.action),
                (
                  acted-map _ _ _ (λ r. full r.action crd.network_defaults.action),
                  acted-map _ _ _ (λ r. full r.action crd.capabilities_defaults.action),
                ),
              ),
            ),
          ),
        ),
      ),
    ))
