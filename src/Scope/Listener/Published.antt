-- ===== src/Scope/Listener/Published.antt =====
-- What a published focus is, for all the backends of scope/listener.cpp.
use loginext.Scope.AppHash.{hash_app}
use loginext.Scope.Listener.{
  Listener, first_text, intro_name_max, intro_source_max, publish_and_log,
}
use loginext.Prelude.{ℕ, ◌≡◌, refl, ◌==◌, Option, [], ◌∷◌, take, Bytes, Bool-cases, inl, inr}

-- The hash of a key: 0 stands for no application.
abbrev pub key_hash : Bytes → ℕ
key_hash [] = 0
key_hash (c ∷ s) = hash_app (c ∷ s)

-- The listener publishes the key: its hash, the name cut to the buffer, and the backend.
pub record Publishes (src key : Bytes) (l : Listener) : Type 0 where
  pub hash : l.active_app_hash ≡ key_hash key
  pub name : l.intro_name ≡ take intro_name_max key
  pub source : l.intro_source ≡ take intro_source_max src

pub publish_and_log-Publishes :
    (l : Listener) (h : ℕ) (src key : Bytes) (instance_name klass : Option Bytes)
    → take intro_name_max (first_text instance_name klass) ≡ take intro_name_max key
    → h ≡ key_hash key
    → Publishes src key (publish_and_log l h src instance_name klass).0
unfolding publish_and_log
publish_and_log-Publishes l h src key i k e e' = elim (Bool-cases (l.active_app_hash == h)) [
  | inl t ↦ rw t (record { hash = e'; name = e; source = refl })
  | inr t ↦ rw t (record { hash = e'; name = e; source = refl })
]
