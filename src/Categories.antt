-- ===== src/Categories.antt =====
-- src/gpo_observers/facts.py: the declared categories of fact keys, and their table.
pub mod Glob
pub mod First
mod Tests
use windows_console_driver.Prelude.{String, true, false, Option, none, some, List, [], ◌∷◌}
use windows_console_driver.Categories.Glob.{glob}

pub data FactCategory : Type 0 where
  structural volatile file_mtime content identity unclassified : FactCategory

pub data VolatileSubcategory : Type 0 where
  timestamps replication_metadata : VolatileSubcategory

abbrev pub Declared : Type 0
Declared = FactCategory × Option VolatileSubcategory

pub record Rule : Type 0 where
  pub pattern : String
  pub declares : Declared

abbrev pub rule : String → FactCategory → Option VolatileSubcategory → Rule
rule pattern category sub = record { pattern = pattern; declares = (category, sub) }

-- The first rule whose pattern the key matches.
unfoldable pub first_match : List Rule → String → Declared
unfolding glob
first_match [] key = (unclassified, none)
first_match (r ∷ rs) key = elim (glob r.pattern key) [
  | true ↦ r.declares
  | false ↦ first_match rs key
]

unfoldable pub fact_category_rules : List Rule
fact_category_rules =
    rule "gpo_identity.*" identity none
    ∷ rule "version.displayName" identity none
    ∷ rule "ad.gPCMachineExtensionNames" structural none
    ∷ rule "ad.gPCUserExtensionNames" structural none
    ∷ rule "ad.versionNumber" structural none
    ∷ rule "ad.gPCFunctionalityVersion" structural none
    ∷ rule "ad.flags" structural none
    ∷ rule "ad.whenChanged" volatile (some timestamps)
    ∷ rule "ad.uSNChanged" volatile (some replication_metadata)
    ∷ rule "version.raw" structural none
    ∷ rule "version.machine" structural none
    ∷ rule "version.user" structural none
    ∷ rule "version.ad_versionNumber" structural none
    ∷ rule "scripts_ini.*.present" content none
    ∷ rule "scripts_ini.*.encoding.*" content none
    ∷ rule "scripts_ini.*.config_shape" content none
    ∷ rule "scripts_ini.*.policy.*" content none
    ∷ rule "scripts_ini.*.scripts_config.*" content none
    ∷ rule "scripts_ini.*.entry_count" content none
    ∷ rule "scripts_ini.*.*.*.*" content none
    ∷ rule "gpttmpl.present" content none
    ∷ rule "gpttmpl.*" content none
    ∷ rule "fdeploy.present" content none
    ∷ rule "fdeploy.*" content none
    ∷ rule "fdeploy_marker.present" content none
    ∷ rule "fdeploy_marker.*" content none
    ∷ rule "filedigest.*.present" content none
    ∷ rule "filedigest.*.bytes" content none
    ∷ rule "filedigest.*.sha256" content none
    ∷ rule "migtable.present" content none
    ∷ rule "migtable.*" content none
    ∷ rule "wmifilter.container.present" structural none
    ∷ rule "wmifilter.container.object_count" structural none
    ∷ rule "wmifilter.container.other_names" structural none
    ∷ rule "wmifilter.container.unnamed_count" structural none
    ∷ rule "wmifilter.target.match_count" structural none
    ∷ rule "wmifilter.target.present" content none
    ∷ rule "wmifilter.target.name" content none
    ∷ rule "wmifilter.target.parm1" content none
    ∷ rule "wmifilter.target.parm2" content none
    ∷ rule "wmifilter.target.id" identity none
    ∷ rule "certtmpl.container.present" structural none
    ∷ rule "certtmpl.container.object_count" structural none
    ∷ rule "certtmpl.container.names_sha256" structural none
    ∷ rule "certtmpl.container.other_names_sha256" structural none
    ∷ rule "certtmpl.container.other_count" structural none
    ∷ rule "certtmpl.container.unnamed_count" structural none
    ∷ rule "certtmpl.target.present" content none
    ∷ rule "certtmpl.target.name" content none
    ∷ rule "certtmpl.target.expiration_100ns" content none
    ∷ rule "certtmpl.target.overlap_100ns" content none
    ∷ rule "certtmpl.target.schema_version" content none
    ∷ rule "certtmpl.target.cert_name_flag" content none
    ∷ rule "certtmpl.target.key_flag" content none
    ∷ rule "certtmpl.target.sddl_len" content none
    ∷ rule "certtmpl.target.sddl_sha256" content none
    ∷ rule "certsrv.ca.host" identity none
    ∷ rule "certsrv.ca.name" identity none
    ∷ rule "certsrv.ca.observed_from" identity none
    ∷ rule "certsrv.ca.directory.count" structural none
    ∷ rule "certsrv.ca.directory.hosts_sha256" structural none
    ∷ rule "certsrv.ca.directory.member" structural none
    ∷ rule "certsrv.config.value_count" structural none
    ∷ rule "certsrv.config.value_names_sha256" structural none
    ∷ rule "certsrv.officerrights.present" content none
    ∷ rule "certsrv.officerrights.kind" content none
    ∷ rule "certsrv.officerrights.bytes" content none
    ∷ rule "certsrv.officerrights.sha256" content none
    ∷ rule "certsrv.officerrights.decoded_present" content none
    ∷ rule "certsrv.officerrights.decoded_rows" content none
    ∷ rule "certsrv.officerrights.decoded_sha256" content none
    ∷ rule "certsrv.officerrights.certutil_rc" content none
    ∷ rule "certsrv.security.bytes" structural none
    ∷ rule "certsrv.security.sha256" structural none
    ∷ rule "certsrv.published.count" structural none
    ∷ rule "certsrv.published.names_sha256" structural none
    ∷ rule "sysvol.passes_match" structural none
    ∷ rule "sysvol.*.mtime" file_mtime none
    ∷ rule "scope.extension_lists.*" structural none
    ∷ rule "scope.policies.gpc_guids" structural none
    ∷ rule "scope.sysvol_relpaths" structural none
    ∷ rule "scope.sysvol_contained" structural none
    ∷ []

unfoldable pub declared_category : String → Declared
unfolding first_match
declared_category key = first_match fact_category_rules key
