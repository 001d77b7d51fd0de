-- ===== src/Tests/Charging.antt =====
-- The page of a transaction, on a concrete one.
use harmony_saas_multitenanc.Base.{◌≤◌, true, false, ◌≡◌, refl, none, some, all, count_if}
use harmony_saas_multitenanc.Billing.{
  TransactionPage, BillingTransactionDetail, TransactionStatus, approve, reject,
  first_transaction_page,
}
use harmony_saas_multitenanc.Billing.Controls.{
  BillingEvent, answer, can_come, Reach, start, after, is_of, set_shown, shows, is_filled, offers,
}
use harmony_saas_multitenanc.Billing.Guards.{Reach-IsGuarded, says_something}

abbrev invoice : BillingTransactionDetail
invoice = record {
  id = "x1";
  has_payment_proof = true;
  payment_proof_file_id = some "f1";
  status = TransactionStatus.pending;
  requires_review = false;
  can_approve = true;
  can_reject = true;
  coupon_id = none;
}

abbrev shown : TransactionPage
shown = answer (BillingEvent.transaction_arrives invoice) first_transaction_page

abbrev asking : TransactionPage
asking = answer (BillingEvent.opened approve) shown

abbrev approving : TransactionPage
approving = answer (BillingEvent.confirmed approve) asking

approving_reached : Reach approving
unfolding can_come answer set_shown shows is_filled first_transaction_page offers
approving_reached =
    after (BillingEvent.confirmed approve)
      (after (BillingEvent.opened approve)
        (after (BillingEvent.transaction_arrives invoice) start refl) refl)
      refl

Reach-IsGuarded_example :
    (all says_something approving.under_way ≡ true)
    × (count_if (is_of reject) approving.under_way ≤ 1)
Reach-IsGuarded_example = Reach-IsGuarded reject approving_reached
