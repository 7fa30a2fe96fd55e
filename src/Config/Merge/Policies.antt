-- ===== src/Config/Merge/Policies.antt =====
-- retry_consul.go and retry_config_file.go: the class policies of merged files.
use http_governance_client.Common.{refl, Option, none, some, arith, inl, inr, Result-cases, IsOk}
use http_governance_client.Types.Policy.{
  RequestClass, internal_read, internal_write, external_read, external_write,
}
use http_governance_client.Config.Provider.{ClassPatches}
use http_governance_client.Config.Patches.{ParseDuration, to_patch}
use http_governance_client.Config.File.{RetryPolicyPatchFile, RetryConfigFile, RetryClassPolicyFile}
use http_governance_client.Config.Update.{add_class_patch, class_patches_of}
use http_governance_client.Config.Merge.{
  merge_retry_policy_patch_files, merge_retry_class_policy_files,
}
use http_governance_client.Config.Merge.Accepted.{to_patch-merge_retry_policy_patch_files}

module _ (parse : ParseDuration) where
  -- No policy, or one that toPatch accepts.
  abbrev pub IsPolicy : Option RetryPolicyPatchFile → Type 0
  IsPolicy none = Unit
  IsPolicy (some f) = IsOk (to_patch parse f)

  pub record ArePolicies (c : RetryClassPolicyFile) : Type 0 where
    pub reads : IsPolicy c.internal_read_policy
    pub writes : IsPolicy c.internal_write_policy
    pub external_reads : IsPolicy c.external_read_policy
    pub external_writes : IsPolicy c.external_write_policy

  merge-IsPolicy :
      (base o : Option RetryPolicyPatchFile)
      → IsPolicy base
      → IsPolicy o
      → IsPolicy (merge_retry_policy_patch_files base o)
  unfolding merge_retry_policy_patch_files
  merge-IsPolicy none o h k = k
  merge-IsPolicy (some base) none h k = h
  merge-IsPolicy (some base) (some o) (p, h) (q, k) =
      to_patch-merge_retry_policy_patch_files parse base o _ p q h k refl

  pub merge-ArePolicies :
      (base o : RetryClassPolicyFile)
      → ArePolicies base
      → ArePolicies o
      → ArePolicies (merge_retry_class_policy_files base o)
  unfolding merge_retry_class_policy_files
  merge-ArePolicies base o h k = record {
    reads = merge-IsPolicy base.internal_read_policy o.internal_read_policy h.reads k.reads;
    writes = merge-IsPolicy base.internal_write_policy o.internal_write_policy h.writes k.writes;
    external_reads =
        merge-IsPolicy base.external_read_policy o.external_read_policy h.external_reads
          k.external_reads;
    external_writes =
        merge-IsPolicy base.external_write_policy o.external_write_policy h.external_writes
          k.external_writes;
  }

  add_class_patch-IsPolicy :
      (class : RequestClass) (f : Option RetryPolicyPatchFile) (ps : ClassPatches)
      → IsOk (add_class_patch parse class f ps)
      → IsPolicy f
  unfolding add_class_patch
  add_class_patch-IsPolicy class none ps h = tt
  add_class_patch-IsPolicy class (some f) ps h = elim (Result-cases (to_patch parse f)) [
    | inl good ↦ good
    | inr (x, bad) ↦ absurd (ground arith)
  ]

  IsPolicy-add_class_patch :
      (class : RequestClass) (f : Option RetryPolicyPatchFile) (ps : ClassPatches)
      → IsPolicy f
      → IsOk (add_class_patch parse class f ps)
  unfolding add_class_patch
  IsPolicy-add_class_patch class none ps h = (ps, refl)
  IsPolicy-add_class_patch class (some f) ps h = rw h.1 (_, refl)

  pub class_patches_of-ArePolicies :
      (file : RetryConfigFile) → IsOk (class_patches_of parse file) → ArePolicies file.policies
  unfolding class_patches_of
  class_patches_of-ArePolicies file h =
      elim (Result-cases
        (add_class_patch parse internal_read file.policies.internal_read_policy (λ _. none))) [
          | inr (x, bad) ↦ absurd (ground arith)
          | inl (a, ea) ↦
              elim (Result-cases
                (add_class_patch parse internal_write file.policies.internal_write_policy a)) [
                  | inr (x, bad) ↦ absurd (ground arith)
                  | inl (b, eb) ↦
                      elim (Result-cases (
                        add_class_patch parse external_read file.policies.external_read_policy b)) [
                          | inr (x, bad) ↦ absurd (ground arith)
                          | inl (c, ec) ↦ record {
                            reads =
                                add_class_patch-IsPolicy internal_read
                                  file.policies.internal_read_policy (λ _. none) (a, ea);
                            writes =
                                add_class_patch-IsPolicy internal_write
                                  file.policies.internal_write_policy a (b, eb);
                            external_reads =
                                add_class_patch-IsPolicy external_read
                                  file.policies.external_read_policy b (c, ec);
                            external_writes =
                                add_class_patch-IsPolicy external_write
                                  file.policies.external_write_policy c (rw (ea, eb, ec) at h);
                          }
                        ]
                ]
        ]

  pub ArePolicies-class_patches_of :
      (file : RetryConfigFile) → ArePolicies file.policies → IsOk (class_patches_of parse file)
  unfolding class_patches_of
  ArePolicies-class_patches_of file h =
      let (a, ea) =
        IsPolicy-add_class_patch internal_read file.policies.internal_read_policy (λ _. none)
          h.reads in
      let (b, eb) =
        IsPolicy-add_class_patch internal_write file.policies.internal_write_policy a h.writes in
      let (c, ec) =
        IsPolicy-add_class_patch external_read file.policies.external_read_policy b
          h.external_reads in
      rw (ea, eb, ec)
        (IsPolicy-add_class_patch external_write file.policies.external_write_policy c
          h.external_writes)
