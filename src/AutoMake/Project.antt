-- ===== src/AutoMake/Project.antt =====
-- AutoMake/include/AutoMakeSrc.h, AutoMakeSrc.cc, AutoMakePjt.h and `AutoMaker::mkpjt`: the files of a
-- new project. The file system gets contents: `append` is `fopen(path, "a+")`, `fwrite` and `fclose`,
-- with whether `fopen` gave a stream. `none` is undefined behaviour:
-- that of `Path`, and a null maker or stream.
pub mod Written
pub mod Generated
mod Tests
use solutions.Base.{
  ℕ, Bool, true, false, Option, none, some, List, [], ◌∷◌, ◌++◌, if◌then◌else◌, Bytes, codes, same,
  ◌>>=◌,
}
use solutions.FilePath.{slash, new_path}
use solutions.FileSystem.{Fs, is_dir}
use solutions.AutoMake.{mkdirs, erase_first}

-- The classes derived from `ContextMaker`.
pub data Kind : Type 0 where
  head src test make : Kind

-- `ContextMaker`: its class and `m_ss`.
pub record ContextMaker : Type 0 where
  pub kind : Kind
  pub ss : Bytes

-- `ContextMaker::s_binDir`.
abbrev pub bin_dir : Bytes
bin_dir = codes "../../bin/"

pub src_context : Bytes → Bytes
src_context name =
    codes "#include \""
    ++ (name
        ++ (codes ".h\" \n\nnamespace tt {  \n\n"
            ++ (name
                ++ (codes "::"
                    ++ (name
                        ++ (codes "() { \n\n\n}\n\n"
                            ++ (name
                                ++ (codes "::~"
                                    ++ (name
                                        ++ (codes "() {\n\n\n}\n\n} // namespace tt\n"))))))))))

pub head_context : Bytes → Bytes
head_context name =
    codes "#pragma once\n\n#include <iostream>\n#include <memory>\n#include <string>\n\n"
    ++ (codes "namespace tt { \n\nclass "
        ++ (name
            ++ (codes "{ \npublic: \n\tusing ptr = std::shared_ptr<"
                ++ (name
                    ++ (codes ">;\n\t"
                        ++ (name
                            ++ (codes "();\n\t~"
                                ++ (name
                                    ++ (codes "();\n\n\nprotected:\n\n}; // "
                                        ++ (name ++ (codes "\n\n} // namespcae tt \n\n\n")))))))))))

pub test_context : Bytes → Bytes
test_context name =
    codes "#include \""
    ++ (name
        ++ (codes ".h\" \n\nvoid\ntest_base() { \n\n}\n\n\nint\nmain(int argc, char** argv) {\n"
            ++ (codes "\tstd::cout << \"Hello, "
                ++ (name ++ (codes "!\" << std::endl;\n\ttest_base();\n\n\treturn 0; \n}\n")))))

-- The name of the test's file.
pub test_file_name : Bytes → Bytes
test_file_name name = codes "test_" ++ (name ++ codes "_func.cc")

pub make_context : Bytes → Bytes
make_context name =
    let target = bin_dir ++ test_file_name name in
    codes "#!/bin/bash\n\nclear \n\ng++ "
    ++ (name
        ++ (codes ".cc   \\\n    "
            ++ (test_file_name name
                ++ (codes "  \\\n-o "
                    ++ (target
                        ++ (codes ".o\n\n\nchmod a+x "
                            ++ (target ++ (codes ".o \n\n" ++ (target ++ codes ".o\n\n")))))))))

-- What `makeContext` puts into `m_ss` when the project has a name.
pub context : Kind → Bytes → Bytes
context head name = head_context name
context src name = src_context name
context test name = test_context name
context make name = make_context name

-- `ContextMaker::getContext`: the result, and the maker after it.
pub maker_context : Bytes → ContextMaker → Bytes × ContextMaker
maker_context name m = let m' = record m { ss = m.ss ++ context m.kind name } in (m'.ss, m')

-- `AutoMakeSrc::m_makers`.
abbrev pub Makers : Type 0
Makers = List (Bytes × ContextMaker)

pub find_maker : Bytes → Makers → Option ContextMaker
find_maker path [] = none
find_maker path ((p, m) ∷ ms) = if same p path then some m else find_maker path ms

-- `AutoMakeSrc::addMaker`: `map::insert` keeps the maker that is there.
pub add_maker : Bytes → ContextMaker → Makers → Makers
add_maker path m ms = elim (find_maker path ms) [ none ↦ (path, m) ∷ ms | some _ ↦ ms ]

-- The maker that was called, put back.
pub set_maker : Bytes → ContextMaker → Makers → Makers
set_maker path m [] = []
set_maker path m ((p, n) ∷ ms) =
    let rest = set_maker path m ms in if same p path then (p, m) ∷ ms else (p, n) ∷ rest

-- `AutoMakeSrc::getContext`.
pub get_context : Bytes → Bytes → Makers → Option (Bytes × Makers)
get_context name path ms = do
  m ← find_maker path ms
  let (text, m') = maker_context name m
  some (text, set_maker path m' ms)

-- `AutoMakePjt`.
pub record AutoMakePjt : Type 0 where
  pub pjt_dir : Bytes
  pub pjt_name : Bytes
  pub files : List Bytes

-- `AutoMakePjt::addFile` and `delFile`.
pub add_file : Bytes → AutoMakePjt → AutoMakePjt
add_file f p = record p { files = p.files ++ f ∷ [] }

pub del_file : Bytes → AutoMakePjt → AutoMakePjt
del_file f p = record p { files = erase_first f p.files }

-- The contents of files.
pub record Files (fs : Fs) : Type 0 where
  pub read : Bytes → fs.State → Option Bytes
  pub append : Bytes → Bytes → fs.State → Option ℕ × fs.State

-- The project, the makers and the file system while `mkpjt` runs.
pub record Making (fs : Fs) : Type 0 where
  pub pjt : AutoMakePjt
  pub makers : Makers
  pub disk : fs.State

-- The file names of `mkpjt` and the classes of their makers, in its order.
pub pjt_files : Bytes → List (Bytes × Kind)
pjt_files name =
    (name ++ codes ".h", head)
    ∷ (name ++ codes ".cc", src)
    ∷ (test_file_name name, test)
    ∷ (codes "mk", make)
    ∷ []

module _ (fs : Fs) (io : Files fs) where
  -- The macro `xx(file_name, C)` of `mkpjt`.
  pub mk_file : Bytes → Bytes → Bytes → Bytes → Kind → Making fs → Option (Making fs)
  mk_file cwd pjt_path name file kind m = do
    let makers = add_maker file (record { kind = kind; ss = [] }) m.makers
    (text, makers') ← get_context name file makers
    _ ← new_path cwd (pjt_path ++ file) slash
    let (opened, disk) = io.append (pjt_path ++ file) text m.disk
    _ ← opened
    some (record { pjt = add_file file m.pjt; makers = makers'; disk = disk })

  pub mk_files : Bytes → Bytes → Bytes → List (Bytes × Kind) → Making fs → Option (Making fs)
  mk_files cwd pjt_path name [] m = some m
  mk_files cwd pjt_path name ((file, kind) ∷ fks) m = do
    m' ← mk_file cwd pjt_path name file kind m
    mk_files cwd pjt_path name fks m'

  -- `AutoMaker::mkpjt`.
  pub mkpjt : Bool → Bytes → Bytes → Bytes → fs.State → Option (Making fs)
  mkpjt manager cwd name dir s = do
    let pjt_path = dir ++ (name ++ slash ∷ [])
    let made = mkdirs fs cwd pjt_path s
    s' ← (if is_dir fs pjt_path s then some s else if manager then made else none)
    let pjt : AutoMakePjt = record { pjt_dir = dir; pjt_name = name; files = [] }
    mk_files cwd pjt_path name (pjt_files name) (record { pjt = pjt; makers = []; disk = s' })
