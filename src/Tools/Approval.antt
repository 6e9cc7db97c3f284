-- ===== src/Tools/Approval.antt =====
-- The approvals of src/ai/tools/approval.ts: a set of content keys, kept as a list.
use capybara_ai.Prelude.{
  String, Bool, true, false, List, [], ◌∷◌, ◌==◌, string_eq, includes, ◌≡◌, refl, ◌||◌, not, ◌&&◌,
  arith, eq_iff, if◌then◌else◌,
}
use capybara_ai.Prelude.Table.{delete_where}
use capybara_ai.Hash.{Platform, Json, canonical_json}
use Prim.Native.String.{◌++◌ as append}

-- `DenyAllApprovals.isApproved`
abbrev pub deny_all : String → Json → Bool
deny_all tool args = false

-- `Set.add`
abbrev pub add : String → List String → List String
add key keys = if includes keys key then keys else key ∷ keys

module _ (p : Platform) where
  unfoldable pub approval_key : String → Json → String
  approval_key tool args = append tool (append ":" (p.sha256_hex (canonical_json p args)))

  unfoldable pub grant : String → Json → List String → List String
  unfolding approval_key
  grant tool args keys = add (approval_key tool args) keys

  unfoldable pub revoke : String → Json → List String → List String
  unfolding approval_key
  revoke tool args keys = delete_where (λ k. k == approval_key tool args) keys

  unfoldable pub is_approved : List String → String → Json → Bool
  unfolding approval_key
  is_approved keys tool args = includes keys (approval_key tool args)

beq_apart : (x key k : String) → (key == k) ≡ false → x == key ≡ true → (x == k) ≡ false
beq_apart x key k h e = let same : x ≡ key = (eq_iff x key).0 e in rw same h

beq_same : (x key k : String) → (key == k) ≡ true → (x == key) ≡ (x == k)
beq_same x key k h = let same : key ≡ k = (eq_iff key k).0 h in rw same refl

includes-same :
    (key k : String) (keys : List String) → (key == k) ≡ true → includes keys key ≡ includes keys k
includes-same key k keys h = let same : key ≡ k = (eq_iff key k).0 h in rw same refl

includes-add :
    (key k : String) (keys : List String)
    → includes (add key keys) k ≡ (key == k || includes keys k)
includes-add key k keys = ground (arith, includes-same key k keys)

includes-delete :
    (key k : String) (keys : List String)
    → includes (delete_where (λ x. x == key) keys) k ≡ (not (key == k) && includes keys k)
includes-delete key k [] = ground arith
includes-delete key k (x ∷ keys) =
    ground (arith, includes-delete key k keys, beq_apart x key k, beq_same x key k)

module _ (p : Platform) where
  -- After an approval exactly the calls with its key are approved besides those that were, and after
  -- a revocation exactly they no longer are.
  pub is_approved-grant-revoke :
      (tool other : String) (args others : Json) (keys : List String)
      → (is_approved p (grant p tool args keys) other others ≡ (
          approval_key p tool args == approval_key p other others
          || is_approved p keys other others))
        × (is_approved p (revoke p tool args keys) other others ≡ (
            not (approval_key p tool args == approval_key p other others)
            && is_approved p keys other others))
  unfolding is_approved grant revoke
  is_approved-grant-revoke tool other args others keys = (
    includes-add (approval_key p tool args) (approval_key p other others) keys,
    includes-delete (approval_key p tool args) (approval_key p other others) keys,
  )
