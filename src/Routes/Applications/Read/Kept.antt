-- ===== src/Routes/Applications/Read/Kept.antt =====
-- The routes that read, and those of the contact email, keep the applications.
use streamgive_backend.Prelude.{String, List, [], ◌∷◌}
use streamgive_backend.Db.{NgoApplication}
use streamgive_backend.Db.Exec.{Env}
use streamgive_backend.Db.Keeps.{Keeps, keeps_rules}
use streamgive_backend.Routes.Applications.Schema.{Field}
use streamgive_backend.Routes.Applications.Services.{Services}
use streamgive_backend.Routes.Applications.Read.{
  answer_status, status, stats, list_page, list, detail, verify_contact_email, resend_to,
  resend_by_id, resend_contact_email,
}
use streamgive_backend.Routes.Applications.Evolution.{applications_kept, ApplicationsKept-prisma}
use streamgive_backend.Routes.Applications.Kept.{
  send_contact_verification-Kept, verify_contact_token-Kept,
}

module _ (env : Env) {Key : Type 0} (services : Services Key)
    (newest_first : List NgoApplication → List NgoApplication) where
  answer_status-Kept :
      (rows : List NgoApplication)
      → Keeps applications_kept (answer_status env services newest_first rows)
  unfolding answer_status
  answer_status-Kept [] = search keeps_rules
  answer_status-Kept (row ∷ rows) = search keeps_rules

  pub status-Kept :
      (field : Field) → Keeps applications_kept (status env services newest_first field)
  unfolding status
  status-Kept field = search (keeps_rules, ApplicationsKept-prisma, answer_status-Kept)

  pub stats-Kept : Keeps applications_kept (stats env services newest_first)
  unfolding stats
  stats-Kept = search (keeps_rules, ApplicationsKept-prisma)

  pub list-Kept :
      (status limit offset : Field)
      → Keeps applications_kept (list env services newest_first status limit offset)
  unfolding list list_page
  list-Kept status limit offset = search (keeps_rules, ApplicationsKept-prisma) depth 12

  pub detail-Kept : (id : Field) → Keeps applications_kept (detail env services newest_first id)
  unfolding detail
  detail-Kept id = search (keeps_rules, ApplicationsKept-prisma)

  pub verify_contact_email-Kept :
      (field : Field)
      → Keeps applications_kept (verify_contact_email env services newest_first field)
  unfolding verify_contact_email
  verify_contact_email-Kept field = search (keeps_rules, verify_contact_token-Kept)

  resend_to-Kept :
      (row : NgoApplication) → Keeps applications_kept (resend_to env services newest_first row)
  unfolding resend_to
  resend_to-Kept row = search (keeps_rules, send_contact_verification-Kept)

  resend_by_id-Kept :
      (id : String) → Keeps applications_kept (resend_by_id env services newest_first id)
  unfolding resend_by_id
  resend_by_id-Kept id = search (keeps_rules, ApplicationsKept-prisma, resend_to-Kept)

  pub resend_contact_email-Kept :
      (id : Field) → Keeps applications_kept (resend_contact_email env services newest_first id)
  unfolding resend_contact_email
  resend_contact_email-Kept id = search (keeps_rules, resend_by_id-Kept)
