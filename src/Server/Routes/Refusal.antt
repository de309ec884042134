-- ===== src/Server/Routes/Refusal.antt =====
-- POST /api/v1/history/delete of src/server/http_server.cpp: the requests that are refused.
use pulseport.Server.Base64.{range}
use pulseport.Config.{get_text}
use pulseport.Storage.Engine.{Sqlite}
use pulseport.Storage.Reader.{delete_history, deletion_table}
use pulseport.Server.Routes.{
  DeletionBody, delete_route, delete_table, foreign_origin, is_refused, delete_all, delete_scope,
  deletion_range,
}
use pulseport.Prelude.{
  Bool, Bool-cases, Option-cases, String, arith, eq_iff, false, inl, inr, none, refl, str_eq, true,
  ◌||◌, ◌≡◌, ◌⊎◌,
}
use pulseport.Prelude.Int.{eqb_ℤ, ltb_ℤ, pos, ℤ}
use pulseport.Prelude.Double.{Double}

pub near_origin :
    (contains : String → String → Bool) (origin : String)
    → foreign_origin contains origin ≡ false
    → (origin ≡ "") ⊎ ((contains origin "127.0.0.1" ≡ true) ⊎ (contains origin "localhost" ≡ true))
unfolding foreign_origin
near_origin contains origin near = elim (Bool-cases (str_eq origin "")) [
  | inl empty ↦ inl ((eq_iff origin "").0 empty)
  | inr named ↦ inr (ground (arith, near, named))
]

module _ {ℓ} {D Db : Type ℓ} ⦃d : Double D⦄ (e : Sqlite D Db) where
  delete_history-none :
      (table : String) (start end : ℤ) (db : Db)
      → let result = delete_history e table start end db in (result.0 ≡ none → result.1 ≡ db)
  unfolding delete_history
  delete_history-none table start end db = elim (Option-cases (deletion_table table)) [
    | inl refusal ↦ rw (delete_history, refusal) (λ h. refl)
    | inr (which, allowed) ↦ rw (delete_history, allowed) (λ h. absurd cc)
  ]

  delete_table-refused :
      (table : String) (start end : ℤ) (db : Db)
      → let result = delete_table e table start end db in is_refused result.0 ≡ true → result.1 ≡ db
  unfolding delete_table
  delete_table-refused table start end db =
      elim (Bool-cases (eqb_ℤ start (pos 0) || eqb_ℤ end (pos 0) || ltb_ℤ end start)) [
        | inl bad ↦ rw bad (λ h. refl)
        | inr good ↦ rw good (elim (Option-cases (delete_history e table start end db).0) [
          | inl gone ↦ λ h. delete_history-none table start end db gone
          | inr (n, done) ↦ rw done (λ h. absurd cc)
        ])
      ]

  delete_scope-refused :
      (truncate : D → ℤ) (body : DeletionBody D) (db : Db)
      → is_refused (delete_scope e truncate body db).0 ≡ true
      → (delete_scope e truncate body db).1 ≡ db
  unfolding delete_all delete_scope
  delete_scope-refused truncate DeletionBody.unparsed db = λ h. refl
  delete_scope-refused truncate DeletionBody.not_an_object db = λ h. refl
  delete_scope-refused truncate (DeletionBody.members body) db =
      elim (Option-cases (get_text body "scope" "")) [
        | inl threw ↦ rw (delete_scope, threw) (λ h. refl)
        | inr (scope, read) ↦ elim (Bool-cases (str_eq scope "all")) [
          | inl all ↦ rw (delete_scope, read, all) (λ h. absurd cc)
          | inr one ↦ elim (Option-cases (deletion_range e truncate body)) [
            | inl threw ↦ rw (delete_scope, read, one, threw) (λ h. refl)
            | inr ((table, start, end), range) ↦
                rw (delete_scope, read, one, range) (delete_table-refused table start end db)
          ]
        ]
      ]

  -- A deletion request that is refused, with whatever status, leaves the database as it was. One that is not refused
  -- came with no origin, or with one in which 127.0.0.1 or localhost stands somewhere.
  pub delete_route-refused :
      (truncate : D → ℤ) (contains : String → String → Bool) (origin : String)
      (body : DeletionBody D) (db : Db)
      → let result = delete_route e truncate contains origin body db in
        (is_refused result.0 ≡ true → result.1 ≡ db)
        × (is_refused result.0 ≡ false
            → (origin ≡ "")
              ⊎ ((contains origin "127.0.0.1" ≡ true) ⊎ (contains origin "localhost" ≡ true)))
  unfolding delete_route
  delete_route-refused truncate contains origin body db =
      elim (Bool-cases (foreign_origin contains origin)) [
        | inl foreign ↦ rw (delete_route, foreign) (λ h. refl, λ h. absurd cc)
        | inr near ↦
            rw (delete_route, near)
              (delete_scope-refused truncate body db, λ h. near_origin contains origin near)
      ]
