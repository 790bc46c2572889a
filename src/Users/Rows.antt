-- ===== src/Users/Rows.antt =====
-- Reading the users table after a change of it.
use fastapi_modular_template.Base.{
  String, ◌≡◌, refl, sym, ◌≢◌, false, some, List, [], ◌∷◌, ◌++◌, arith, eq_iff, is_some, All,
  All-append,
}
use fastapi_modular_template.Users.{User, user_by_id, user_by_email, update_users}

pub id-user_by_id :
    (id : String) (us : List User) (u : User) → user_by_id id us ≡ some u → u.id ≡ id
unfolding user_by_id
id-user_by_id id [] u h = cc
id-user_by_id id (x ∷ us) u h = ground (arith, id-user_by_id id us u, eq_iff x.id id)

pub user_by_id-update_users :
    (id : String) (f : User → User) (us : List User) (u : User)
    → ((x : User) → (f x).id ≡ x.id)
    → user_by_id id us ≡ some u
    → user_by_id id (update_users id f us) ≡ some (f u)
unfolding user_by_id update_users
user_by_id-update_users id f [] u same h = cc
user_by_id-update_users id f (x ∷ us) u same h =
    ground (arith, same x, user_by_id-update_users id f us u same)

pub user_by_id-update_users_ne :
    (id other : String) (f : User → User) (us : List User)
    → ((x : User) → (f x).id ≡ x.id)
    → id ≢ other
    → user_by_id other (update_users id f us) ≡ user_by_id other us
unfolding user_by_id update_users
user_by_id-update_users_ne id other f [] same d = refl
user_by_id-update_users_ne id other f (x ∷ us) same d = ground (
  arith,
  same x,
  user_by_id-update_users_ne id other f us same d,
  eq_iff x.id id,
  eq_iff x.id other,
)

-- The emails of the table are all different.
abbrev pub HasNoEmail : String → List User → Type 0
HasNoEmail email us = All (λ u. u.email ≢ email) us

abbrev pub UniqueEmails : List User → Type 0
UniqueEmails [] = Unit
UniqueEmails (u ∷ us) = HasNoEmail u.email us × UniqueEmails us

pub HasNoEmail-user_by_email :
    (email : String) (us : List User)
    → is_some (user_by_email email us) ≡ false
    → HasNoEmail email us
unfolding user_by_email
HasNoEmail-user_by_email email [] h = tt
HasNoEmail-user_by_email email (u ∷ us) h =
    ground (arith, HasNoEmail-user_by_email email us, eq_iff u.email email)

pub HasNoEmail-update_users :
    (email id : String) (f : User → User) (us : List User)
    → ((x : User) → (f x).email ≡ x.email)
    → HasNoEmail email us
    → HasNoEmail email (update_users id f us)
unfolding update_users
HasNoEmail-update_users email id f [] same h = tt
HasNoEmail-update_users email id f (u ∷ us) same h =
    ground (arith, same u, HasNoEmail-update_users email id f us same h.1)

pub UniqueEmails-update_users :
    (id : String) (f : User → User) (us : List User)
    → ((x : User) → (f x).email ≡ x.email)
    → UniqueEmails us
    → UniqueEmails (update_users id f us)
unfolding update_users
UniqueEmails-update_users id f [] same h = tt
UniqueEmails-update_users id f (u ∷ us) same h = ground (
  arith,
  same u,
  HasNoEmail-update_users u.email id f us same h.0,
  UniqueEmails-update_users id f us same h.1,
)

pub UniqueEmails-append :
    (us : List User) (v : User)
    → UniqueEmails us
    → HasNoEmail v.email us
    → UniqueEmails (us ++ v ∷ [])
UniqueEmails-append [] v h k = (tt, tt)
UniqueEmails-append (u ∷ us) v h k = (
  All-append (λ x. x.email ≢ u.email) us (v ∷ []) h.0 ((λ e. k.0 (sym e)), tt),
  UniqueEmails-append us v h.1 k.1,
)
