-- ===== src/Categories/Tests.antt =====
-- Keys of the table, and one that it leaves out.
use windows_console_driver.Prelude.{◌≡◌, refl, none, some}
use windows_console_driver.Categories.Glob.{some_suffix, next_matches, glob}
use windows_console_driver.Categories.{
  volatile, timestamps, file_mtime, unclassified, first_match, fact_category_rules,
  declared_category,
}
use windows_console_driver.Categories.First.{Declares, declared_category-Declares}

changed_time : declared_category "ad.whenChanged" ≡ (volatile, some timestamps)
unfolding declared_category fact_category_rules first_match glob some_suffix next_matches
changed_time = refl

modified_time : declared_category "sysvol.a/b.mtime" ≡ (file_mtime, none)
unfolding declared_category fact_category_rules first_match glob some_suffix next_matches
modified_time = refl

fingerprint : declared_category "sysvol.a/b.sha256" ≡ (unclassified, none)
unfolding declared_category fact_category_rules first_match glob some_suffix next_matches
fingerprint = refl

declared_category-Declares_example :
    Declares fact_category_rules "sysvol.a/b.mtime" (declared_category "sysvol.a/b.mtime")
declared_category-Declares_example = declared_category-Declares "sysvol.a/b.mtime"
