-- ===== src/Bpflsm/Fresh/Whitelist.antt =====
-- The posture flags of the fresh rule set, read off the policies.
use kube_armor.Base.{
  ◌≡◌, ◌∙◌, refl, Bool, false, ◌||◌, List, [], ◌∷◌, any, each, arith, ℕ, is_empty, Bool-cases, inl,
  inr,
}
use kube_armor.Base.Comparable.{◌==◌, text_eq}
use kube_armor.Base.GoMap.{GoMap}
use kube_armor.Base.Text.{Text}
use kube_armor.Bpflsm.Fresh.{add_policy, fresh_rules, policy_rules}
use kube_armor.Bpflsm.Fresh.Plain.{
  add_capability-posture, add_network-posture, any_allow, any_allow-handle_all_network_rule,
}
use kube_armor.Bpflsm.Fresh.Posture.{
  add_file_dir-posture, add_file_path-posture, add_process_dir-posture, add_process_path-posture,
  each-posture,
}
use kube_armor.Bpflsm.Keys.{ArgListKey, NsKey}
use kube_armor.Bpflsm.RuleList.{RuleList, RuleSection, init_rules}
use kube_armor.Bpflsm.RuleList.Capability.{add_capability}
use kube_armor.Bpflsm.RuleList.File.{add_file_dir, add_file_path}
use kube_armor.Bpflsm.RuleList.Network.{add_network, handle_all_network_rule}
use kube_armor.Bpflsm.RuleList.Process.{add_process_dir, add_process_path}
use kube_armor.Policy.{ProcessPathType, SecurityPolicy, allow}

-- Some rule of the policy allows, by the kind of the rules.
unfoldable pub process_allows : SecurityPolicy → Bool
process_allows p =
    any (λ r. r.action == allow) p.spec.process.match_directories
    || any (λ r. r.action == allow) p.spec.process.match_paths

unfoldable pub file_allows : SecurityPolicy → Bool
file_allows p =
    any (λ r. r.action == allow) p.spec.file.match_directories
    || any (λ r. r.action == allow) p.spec.file.match_paths

unfoldable pub network_allows : SecurityPolicy → Bool
network_allows p = any_allow p.spec.network

unfoldable pub capabilities_allow : SecurityPolicy → Bool
capabilities_allow p = any (λ r. r.action == allow) p.spec.capabilities

or_false : (a : Bool) → (a || false) ≡ a
or_false a = ground arith

each_kept {ℓ κ μ} :
    {A : Type ℓ} {S : Type κ} {B : Type μ} (f : A → S → S) (part : S → B)
    → ((x : A) (s : S) → part (f x s) ≡ part s)
    → (xs : List A) (s : S) → part (each f xs s) ≡ part s
each_kept f part h [] s = refl
each_kept f part h (x ∷ xs) s = each_kept f part h xs (f x s) ∙ h x s

module _ (cap_to_code : GoMap Text ℕ) (ns : NsKey) where
  process-add_policy :
      (p : SecurityPolicy) (r : RuleList)
      → (add_policy cap_to_code ns p r).process.posture ≡ (process_allows p || r.process.posture)
  unfolding add_policy process_allows
  process-add_policy p r =
      each-posture add_process_dir (λ s. s.posture) (λ d. d.action == allow) add_process_dir-posture
        p.spec.process.match_directories _
      ∙ rw
          (each-posture (add_process_path ns) (λ s. s.process.posture) (λ x. x.action == allow)
            (add_process_path-posture ns) p.spec.process.match_paths r)
          (ground arith)

  -- The loop over process paths leaves the other sections alone.
  path_kept :
      (part : RuleList → RuleSection)
      → ((r : RuleList) (s : RuleSection) → part (record r { process = s }) ≡ part r)
      → ((r : RuleList) (s : RuleSection) (l : GoMap ArgListKey (List Text))
          → part (record r { process = s; arguments = l }) ≡ part r)
      → (x : ProcessPathType) (r : RuleList) → part (add_process_path ns x r) ≡ part r
  unfolding add_process_path
  path_kept part h g x r = elim (Bool-cases (is_empty x.allowed_args)) [
    | inl e ↦ rw e (h r _)
    | inr e ↦ rw e (g r _ _)
  ]

  file-add_policy :
      (p : SecurityPolicy) (r : RuleList)
      → (add_policy cap_to_code ns p r).file.posture ≡ (file_allows p || r.file.posture)
  unfolding add_policy file_allows
  file-add_policy p r =
      each-posture add_file_dir (λ s. s.posture) (λ d. d.action == allow) add_file_dir-posture
        p.spec.file.match_directories _
      ∙ rw
          (each-posture add_file_path (λ s. s.posture) (λ x. x.action == allow)
            add_file_path-posture p.spec.file.match_paths _)
          (rw
            (each_kept (add_process_path ns) (λ r. r.file)
              (path_kept (λ r. r.file) (λ r s. refl) (λ r s l. refl)) p.spec.process.match_paths r)
            (ground arith))

  network-add_policy :
      (p : SecurityPolicy) (r : RuleList)
      → (add_policy cap_to_code ns p r).network.posture ≡ (network_allows p || r.network.posture)
  unfolding add_policy network_allows
  network-add_policy p r =
      each-posture add_network (λ s. s.posture) (λ x. x.action == allow) add_network-posture
        (handle_all_network_rule p.spec.network) _
      ∙ rw
          (
            any_allow-handle_all_network_rule p.spec.network,
            each_kept (add_process_path ns) (λ r. r.network)
                (path_kept (λ r. r.network) (λ r s. refl) (λ r s l. refl))
                p.spec.process.match_paths r,
          )
          refl

  capabilities-add_policy :
      (p : SecurityPolicy) (r : RuleList)
      → (add_policy cap_to_code ns p r).capabilities.posture
        ≡ (capabilities_allow p || r.capabilities.posture)
  unfolding add_policy capabilities_allow
  capabilities-add_policy p r =
      each-posture (add_capability cap_to_code) (λ s. s.posture) (λ x. x.action == allow)
        (add_capability-posture cap_to_code) p.spec.capabilities _
      ∙ rw
          (each_kept (add_process_path ns) (λ r. r.capabilities)
            (path_kept (λ r. r.capabilities) (λ r s. refl) (λ r s l. refl))
            p.spec.process.match_paths r)
          refl

  policies-posture :
      (posture : RuleList → Bool) (test : SecurityPolicy → Bool)
      → ((p : SecurityPolicy) (r : RuleList)
          → posture (add_policy cap_to_code ns p r) ≡ (test p || posture r))
      → (ps : List SecurityPolicy) → posture init_rules ≡ false
      → posture (policy_rules cap_to_code ns ps) ≡ any test ps
  unfolding policy_rules
  policies-posture posture test h ps off =
      each-posture (add_policy cap_to_code ns) posture test h ps init_rules ∙ rw off (or_false _)

  -- In the fresh rule set the posture flag of the process section is on exactly if some rule for a
  -- process path or directory, in some policy, says Allow, and likewise that of the file section for
  -- file paths and directories; rules for patterns do not count. The flag of the network section is on
  -- exactly if some network rule says Allow, where rules for all protocols count like the others, and
  -- that of the capabilities exactly if some capability rule does.
  pub fresh_rules-posture :
      (ps : List SecurityPolicy)
      → ((fresh_rules cap_to_code ns ps).process.posture ≡ any process_allows ps)
        × ((fresh_rules cap_to_code ns ps).file.posture ≡ any file_allows ps)
        × ((fresh_rules cap_to_code ns ps).network.posture ≡ any network_allows ps)
        × ((fresh_rules cap_to_code ns ps).capabilities.posture ≡ any capabilities_allow ps)
  unfolding fresh_rules
  fresh_rules-posture ps = (
    policies-posture (λ r. r.process.posture) process_allows process-add_policy ps refl,
    policies-posture (λ r. r.file.posture) file_allows file-add_policy ps refl,
    policies-posture (λ r. r.network.posture) network_allows network-add_policy ps refl,
    policies-posture (λ r. r.capabilities.posture) capabilities_allow capabilities-add_policy ps
        refl,
  )
