-- ===== src/HumanAuth/Session/Roles.antt =====
-- The role that the groups of a user give.
use mcp_webtools.Prelude.{
  ◌≡◌, refl, ap, ◌⊎◌, inl, inr, List, [], ◌∷◌, ◌++◌, arith, Bool-cases, Bytes, codes, same,
  eq_of_same, same_iff,
}
use mcp_webtools.HumanAuth.Session.{role_for_groups}

-- A group that makes an admin: the configured one, by its path or its name.
abbrev pub IsAdminGroup : Bytes → Bytes → Type 0
IsAdminGroup admin_group g = (g ≡ b'/' ∷ admin_group) ⊎ (g ≡ admin_group)

abbrev pub HasAdmin : Bytes → List Bytes → Type 0
HasAdmin admin_group groups =
    (front : List Bytes) × (g : Bytes) × (back : List Bytes) × (groups ≡ front ++ g ∷ back)
    × IsAdminGroup admin_group g

HasAdmin-cons :
    (admin_group g : Bytes) (groups : List Bytes)
    → HasAdmin admin_group groups
    → HasAdmin admin_group (g ∷ groups)
HasAdmin-cons admin_group g groups (front, h, back, split, member) =
    (g ∷ front, h, back, ap (◌∷◌ g) split, member)

HasAdmin-uncons :
    (admin_group g : Bytes) (groups : List Bytes)
    → HasAdmin admin_group (g ∷ groups)
    → IsAdminGroup admin_group g ⊎ HasAdmin admin_group groups
HasAdmin-uncons admin_group g groups ([], h, back, split, member) = inl (ground arith)
HasAdmin-uncons admin_group g groups (f ∷ front, h, back, split, member) =
    inr (front, h, back, ground arith, member)

-- The role is admin where the configured group is among the groups, by its name or its path, and
-- viewer otherwise.
pub role_for_groups-admin :
    (groups : List Bytes) (admin_group : Bytes)
    → (HasAdmin admin_group groups × (role_for_groups groups admin_group ≡ codes "admin"))
      ⊎ ((¬ HasAdmin admin_group groups) × (role_for_groups groups admin_group ≡ codes "viewer"))
unfolding role_for_groups
role_for_groups-admin [] admin_group = inr (none_there admin_group, refl)
  where
    none_there : (admin_group : Bytes) → ¬ HasAdmin admin_group []
    none_there admin_group ([], h, back, split, member) = cc
    none_there admin_group (f ∷ front, h, back, split, member) = cc
role_for_groups-admin (g ∷ groups) admin_group = elim (Bool-cases (same g (b'/' ∷ admin_group))) [
  | inl path ↦ inl (([], g, groups, refl, inl (eq_of_same g _ path)), rw path refl)
  | inr not_path ↦ elim (Bool-cases (same g admin_group)) [
    | inl name ↦ inl (([], g, groups, refl, inr (eq_of_same g _ name)), rw (not_path, name) refl)
    | inr not_name ↦ elim (role_for_groups-admin groups admin_group) [
      | inl (has, role) ↦ inl (HasAdmin-cons admin_group g groups has, rw (not_path, not_name) role)
      | inr (lacks, role) ↦ inr (
        λ has. elim (HasAdmin-uncons admin_group g groups has) [
          | inl (inl e) ↦ cc (not_path, (same_iff g (b'/' ∷ admin_group)).1 e)
          | inl (inr e) ↦ cc (not_name, (same_iff g admin_group).1 e)
          | inr later ↦ lacks later
        ],
        rw (not_path, not_name) role,
      )
    ]
  ]
]
