-- ===== src/Payment.antt =====
-- frontend/src/types/payment.ts: the records of tiers, of payment methods and of requests to change the
-- tier. Amounts are whole numbers.
use harmony_saas_multitenanc.Base.{ℕ, String, Bool, Option, List}

pub record SubscriptionTier : Type 0 where
  pub id : String
  pub code : String
  pub display_name : String
  pub description : Option String
  pub price_monthly : ℕ
  pub price_yearly : ℕ
  pub currency : String
  pub max_users : ℕ
  pub max_branches : ℕ
  pub max_storage_gb : ℕ
  pub features : List String
  pub sort_order : ℕ
  pub is_public : Bool
  pub is_recommended : Bool
  pub trial_days : ℕ
  pub is_active : Bool
  pub created_at : String
  pub updated_at : Option String

pub data PaymentMethodType : Type 0 where
  bank_transfer qris wallet : PaymentMethodType

pub data WalletProvider : Type 0 where
  shopeepay gopay dana ovo linkaja other : WalletProvider

pub data BillingPeriod : Type 0 where
  monthly yearly : BillingPeriod

pub data RequestType : Type 0 where
  upgrade downgrade : RequestType

pub data UpgradeRequestStatus : Type 0 where
  pending payment_uploaded under_review approved rejected cancelled expired : UpgradeRequestStatus

pub record PublicTier : Type 0 where
  pub code : String
  pub display_name : String
  pub description : Option String
  pub price_monthly : ℕ
  pub price_yearly : ℕ
  pub currency : String
  pub max_users : ℕ
  pub max_branches : ℕ
  pub max_storage_gb : ℕ
  pub max_users_display : String
  pub max_branches_display : String
  pub max_storage_display : String
  pub features : List String
  pub sort_order : ℕ
  pub is_recommended : Bool
  pub trial_days : ℕ

pub record PaymentMethod : Type 0 where
  pub id : String
  pub code : String
  pub name : String
  pub type_of : PaymentMethodType
  pub bank_name : Option String
  pub account_number : Option String
  pub account_name : Option String
  pub wallet_type : Option WalletProvider
  pub qris_image_file_id : Option String
  pub qris_image_url : Option String
  pub instructions : Option String
  pub sort_order : ℕ
  pub is_public : Bool
  pub is_active : Bool
  pub created_at : String
  pub updated_at : Option String

pub record PaymentMethodCreate : Type 0 where
  pub code : String
  pub name : String
  pub type_of : PaymentMethodType
  pub bank_name : Option String
  pub account_number : Option String
  pub account_name : Option String
  pub wallet_type : Option WalletProvider
  pub instructions : Option String
  pub sort_order : Option ℕ
  pub is_public : Option Bool

pub record PublicPaymentMethod : Type 0 where
  pub id : String
  pub code : String
  pub name : String
  pub type_of : PaymentMethodType
  pub bank_name : Option String
  pub account_number : Option String
  pub account_name : Option String
  pub wallet_type : Option WalletProvider
  pub qris_image_url : Option String
  pub instructions : Option String

pub record UpgradeRequest : Type 0 where
  pub id : String
  pub request_number : String
  pub tenant_id : String
  pub request_type : RequestType
  pub current_tier_code : String
  pub target_tier_code : String
  pub current_tier_name : Option String
  pub target_tier_name : Option String
  pub billing_period : BillingPeriod
  pub amount : ℕ
  pub currency : String
  pub original_amount : ℕ
  pub proration_credit : ℕ
  pub proration_charge : ℕ
  pub days_remaining : ℕ
  pub effective_date : Option String
  pub payment_method_id : Option String
  pub payment_method_name : Option String
  pub payment_proof_file_id : Option String
  pub payment_proof_url : Option String
  pub payment_proof_uploaded_at : Option String
  pub status : UpgradeRequestStatus
  pub reviewed_by_id : Option String
  pub reviewed_by_name : Option String
  pub reviewed_at : Option String
  pub review_notes : Option String
  pub rejection_reason : Option String
  pub expires_at : Option String
  pub applied_at : Option String
  pub requested_by_id : Option String
  pub requested_by_name : Option String
  pub created_at : String
  pub updated_at : Option String

pub record UpgradeRequestCreate : Type 0 where
  pub target_tier_code : String
  pub billing_period : BillingPeriod
  pub payment_method_id : Option String

pub record UpgradeRequestUpdate : Type 0 where
  pub target_tier_code : String
  pub billing_period : BillingPeriod
  pub payment_method_id : String

pub record Limits : Type 0 where
  pub max_users : ℕ
  pub max_branches : ℕ
  pub max_storage_gb : ℕ

pub record UpgradePreview : Type 0 where
  pub current_tier_code : String
  pub current_tier_name : String
  pub target_tier_code : String
  pub target_tier_name : String
  pub billing_period : BillingPeriod
  pub amount : ℕ
  pub currency : String
  pub savings_from_yearly : Option ℕ
  pub new_limits : Limits
  pub request_type : RequestType
  pub days_remaining : ℕ
  pub proration_credit : ℕ
  pub proration_charge : ℕ
  pub credit_balance_available : ℕ
  pub credit_to_apply : ℕ
  pub amount_due : ℕ
  pub original_amount : ℕ
  pub effective_date : Option String
  pub requires_payment : Bool
