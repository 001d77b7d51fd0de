-- ===== src/Features/Registry.antt =====
-- frontend/src/types/features.ts: the modules, the registry of features and its grouping.
use harmony_saas_multitenanc.Base.{
  String, Option, none, some, List, [], ◌∷◌, ◌++◌, map, ◌==◌, if◌then◌else◌, lookup,
}

pub data FeatureModule : Type 0 where
  pos inventory masterdata purchasing reports platform loyalty hr : FeatureModule

-- The text that stands for a module.
unfoldable pub key : FeatureModule → String
key pos = "pos"
key inventory = "inventory"
key masterdata = "masterdata"
key purchasing = "purchasing"
key reports = "reports"
key platform = "platform"
key loyalty = "loyalty"
key hr = "hr"

pub record FeatureMetadata : Type 0 where
  pub code : String
  pub name : String
  pub description : String
  pub module_of : FeatureModule

abbrev feature : String → String → String → FeatureModule → FeatureMetadata
feature code name description module_of = record {
  code = code;
  name = name;
  description = description;
  module_of = module_of;
}

-- The values of `FEATURE_REGISTRY`, in its order; each stands there under its own code.
unfoldable pub feature_registry : List FeatureMetadata
feature_registry =
    feature "pos.terminal" "POS Terminal" "Point of Sale terminal interface for processing sales"
      pos
    ∷ feature "pos.transactions" "Sales Transactions" "Create and manage sales transactions" pos
    ∷ feature "pos.shifts" "Shift Management"
        "Manage cashier shifts with opening/closing cash counts" pos
    ∷ feature "inventory.stock" "Stock Management" "View and manage stock levels across warehouses"
        inventory
    ∷ feature "inventory.adjustments" "Stock Adjustments"
        "Adjust stock quantities for corrections or write-offs" inventory
    ∷ feature "inventory.transfer" "Stock Transfer" "Transfer stock between warehouses or branches"
        inventory
    ∷ feature "masterdata.items" "Item Management" "Create and manage products/items" masterdata
    ∷ feature "masterdata.categories" "Category Management" "Organize items into categories"
        masterdata
    ∷ feature "masterdata.units" "Unit of Measure" "Define units of measure for items" masterdata
    ∷ feature "masterdata.warehouses" "Warehouse Management" "Manage multiple warehouse locations"
        masterdata
    ∷ feature "masterdata.suppliers" "Supplier Management"
        "Manage supplier information and contacts" masterdata
    ∷ feature "masterdata.customers" "Customer Management" "Manage customer records and information"
        masterdata
    ∷ feature "masterdata.price_levels" "Price Levels"
        "Define multiple price levels for different customer groups" masterdata
    ∷ feature "masterdata.discounts" "Discount Rules" "Create and manage discount rules" masterdata
    ∷ feature "masterdata.discount_groups" "Discount Groups" "Group discounts for easier management"
        masterdata
    ∷ feature "masterdata.promotions" "Promotions" "Create time-limited promotional campaigns"
        masterdata
    ∷ feature "purchasing.orders" "Purchase Orders" "Create and manage purchase orders to suppliers"
        purchasing
    ∷ feature "purchasing.receiving" "Goods Receiving" "Receive goods from purchase orders"
        purchasing
    ∷ feature "reports.basic" "Basic Reports" "Access basic sales and inventory reports" reports
    ∷ feature "reports.advanced" "Advanced Analytics"
        "Advanced analytics with trends and forecasting" reports
    ∷ feature "reports.sales" "Sales Reports" "Detailed sales reports and analysis" reports
    ∷ feature "reports.export" "Export Reports" "Export reports to CSV, PDF, or Excel" reports
    ∷ feature "platform.api_access" "API Access" "Access to external API for integrations" platform
    ∷ feature "platform.integrations" "Third-Party Integrations" "Connect with third-party services"
        platform
    ∷ feature "platform.audit_advanced" "Advanced Audit"
        "Advanced audit logging and compliance features" platform
    ∷ feature "platform.multi_currency" "Multi-Currency" "Support for multiple currencies" platform
    ∷ feature "platform.custom_fields" "Custom Fields" "Add custom fields to records" platform
    ∷ feature "platform.workflow" "Workflow Automation" "Automate business processes with workflows"
        platform
    ∷ feature "loyalty.points" "Loyalty Points" "Customer loyalty point system" loyalty
    ∷ feature "hr.employees" "Employee Management" "Manage employee records and access" hr
    ∷ []

unfoldable pub module_name : FeatureModule → String
module_name pos = "Point of Sale"
module_name inventory = "Inventory"
module_name masterdata = "Master Data"
module_name purchasing = "Purchasing"
module_name reports = "Reports"
module_name platform = "Platform"
module_name loyalty = "Loyalty"
module_name hr = "Human Resources"

abbrev pub Grouped : Type 0
Grouped = List (String × List FeatureMetadata)

-- One round of the loop: the group is made if it is not there, and the feature is pushed to it.
unfoldable pub add_to_group : FeatureMetadata → Grouped → Grouped
add_to_group f [] = (key f.module_of, f ∷ []) ∷ []
add_to_group f ((k, fs) ∷ rest) =
    if k == key f.module_of then (k, fs ++ f ∷ []) ∷ rest else (k, fs) ∷ add_to_group f rest

unfoldable pub group_from : Grouped → List FeatureMetadata → Grouped
group_from grouped [] = grouped
group_from grouped (f ∷ fs) = group_from (add_to_group f grouped) fs

unfoldable pub get_features_by_module : Grouped
get_features_by_module = group_from [] feature_registry

unfoldable pub get_all_feature_codes : List String
get_all_feature_codes = map (λ (f : FeatureMetadata). f.code) feature_registry

-- `featuresByModule[module] || []`
abbrev pub or_none : Option (List FeatureMetadata) → List FeatureMetadata
or_none none = []
or_none (some fs) = fs

unfoldable pub features_of : FeatureModule → List FeatureMetadata
features_of module_of = or_none (lookup (key module_of) get_features_by_module)
